-- ===== src/Manager/System/Labelled.antt =====
-- A worker's round for a stored workflow that has its labels.
use kubernetes_workflow.Base.{
  ℕ, suc, String, ◌∷◌, Bool, true, false, Option, some, none, ◌≡◌, ◌⊎◌, inl, inr, refl, sym, ap,
  ◌∙◌, subst, ◌==◌, if◌then◌else◌,
}
use kubernetes_workflow.GoMap.{entries, keys, get, lookup}
use kubernetes_workflow.Api.Meta.{ObjectMeta}
use kubernetes_workflow.Api.Types.{Workflow, workflow_uid_label}
use kubernetes_workflow.Api.Methods.{all_complete, is_finished}
use kubernetes_workflow.World.{
  Cluster, World, Result, ok, panicked, updated, pure, continue_with, ◌>>=◌,
}
use kubernetes_workflow.World.Runs.{Ends, Runs, Runs-bind, Runs-map, Runs-both}
use kubernetes_workflow.Transitioner.State.{workflow_valid_label, workflow_pause_label, true_string}
use kubernetes_workflow.Transitioner.Status.{with_version}
use kubernetes_workflow.Transitioner.Steps.{process_steps}
use kubernetes_workflow.Transitioner.Steps.Loop.{Stopped}
use kubernetes_workflow.Transitioner.Steps.Outcome.{Processed, process_steps-Processed}
use kubernetes_workflow.Transitioner.Steps.Finishing.{HasFinishedJobs, Later, AdvancedAll}
use kubernetes_workflow.Transitioner.Steps.Completion.{process_steps-AdvancedAll}
use kubernetes_workflow.Transitioner.Steps.Still.{Still, process_steps-Still}
use kubernetes_workflow.Transitioner.Process.{
  is_paused, process_by_labels, process, preconditions_met, finish_transition, transition_existing,
  transition_workflow,
}
use kubernetes_workflow.Transitioner.Process.Laws.{may}
use kubernetes_workflow.Manager.{work}
use kubernetes_workflow.Transitioner.Status.Laws.{update_workflow_status-accepted}

-- What the outside does for the workflow: the jobs of its steps are in the store, and finished; the job
-- store has synced, and every update of the workflow is accepted.
pub record Cooperates (cluster : Cluster) (key : String) (wf : Workflow) : Type 0 where
  pub jobs : HasFinishedJobs cluster wf
  pub synced : (i : ℕ) → cluster.synced i ≡ true
  pub accepts :
      (i : ℕ) (sent : Workflow) → sent.meta.name ≡ wf.meta.name → cluster.update i sent ≡ updated
  pub keyed : cluster.key_func wf.meta ≡ some key

-- The workflow was given its labels, and is not asked to pause.
pub record IsLabelled (wf : Workflow) : Type 0 where
  pub uid : String
  pub has_uid : get workflow_uid_label wf.meta.labels ≡ some uid
  pub was_valid : get workflow_valid_label wf.meta.labels ≡ some "true"
  pub unpaused : is_paused wf ≡ false

pub world_of :
    {A : Type 0} (P : World → Type 0) (r : Result A) (w : World)
    → Ends (λ a v. P v) (λ v. ⊥) r w
    → P w
world_of P (ok a) w h = h
world_of P panicked w h = absurd h

module _ (cluster : Cluster) (key : String) (base : Workflow) (helps : Cooperates cluster key base)
    (labelled : IsLabelled base) where
  abbrev pub IsLater : Workflow → Type 0
  IsLater wf = Later cluster key base helps.jobs wf

  -- What one round of `processSteps` makes of the workflow.
  abbrev pub Moved : Workflow → Workflow → Type 0
  Moved wf wf' =
      AdvancedAll cluster key base helps.jobs wf (entries wf.spec.steps) wf'
      × (all_complete wf.status.statuses (keys (entries wf.spec.steps)) ≡ true
          → is_finished wf' ≡ true)

  -- It was sent, or it is as it was and the store too.
  abbrev pub SentOrStill : Workflow → World → World → Type 0
  SentOrStill wf w v =
      (wf' : Workflow) × Moved wf wf'
      × ((v.updates ≡ wf' ∷ w.updates)
          ⊎ ((v.updates ≡ w.updates) × (v.store ≡ w.store) × (wf' ≡ wf)))

  finished_of :
      {wf : Workflow} {w : World} {b : Bool} (wf' : Workflow) (v : World)
      → Processed cluster wf w (wf', b) v
      → all_complete wf.status.statuses (keys (entries wf.spec.steps)) ≡ true
      → is_finished wf' ≡ true
  finished_of wf' v processed all = elim processed.ending [
    | inl (_, finished, _, _) ↦ finished
    | inr (unfinished, _) ↦ cc (all, unfinished)
  ]

  finish-SentOrStill :
      (wf : Workflow) (w : World) (r : Workflow × Bool) (v : World)
      → Moved wf r.0
      → v.updates ≡ w.updates
      → Still wf w r v
      → Runs (λ t v'. SentOrStill wf w v') (λ v'. ⊥) (finish_transition cluster r v)
  unfolding finish_transition
  finish-SentOrStill wf w (wf', false) v moved quiet still =
      let (same, stored) = still refl in (wf', moved, inr (quiet, stored, same))
  finish-SentOrStill wf w (wf', true) v moved quiet still =
      rw
        (update_workflow_status-accepted cluster wf' v (
          helps.accepts v.asked (with_version wf'.meta.resource_version wf')
            (ap (λ m. m.name) moved.0.0.0)))
        (wf', moved, inl (ap (λ u. wf' ∷ u) quiet))

  pub process_steps-Moved :
      (wf : Workflow) (w : World)
      → IsLater wf
      → Runs
          (λ r v. Moved wf r.0 × (v.updates ≡ w.updates) × Still wf w r v)
          (λ v. ⊥)
          (process_steps cluster key wf w)
  process_steps-Moved wf w later =
      Runs-map
        (λ r v.
          (Processed cluster wf w r v
            × AdvancedAll cluster key base helps.jobs wf (entries wf.spec.steps) r.0)
          × Still wf w r v)
        (λ r v. Moved wf r.0 × (v.updates ≡ w.updates) × Still wf w r v)
        (λ v. (Stopped cluster wf w v × ⊥) × Unit {0}) (λ v. ⊥) _
        (Runs-both
          (λ r v.
            Processed cluster wf w r v
            × AdvancedAll cluster key base helps.jobs wf (entries wf.spec.steps) r.0)
          (Still wf w) (λ v. Stopped cluster wf w v × ⊥) (λ v. Unit {0}) _
          (Runs-both (Processed cluster wf w)
            (λ r v. AdvancedAll cluster key base helps.jobs wf (entries wf.spec.steps) r.0)
            (Stopped cluster wf w) (λ v. ⊥) _ (process_steps-Processed cluster wf w key)
            (process_steps-AdvancedAll cluster key base helps.jobs wf w later))
          (process_steps-Still cluster key wf w))
        (λ r v (both, still).
          ((both.1, λ all. finished_of r.0 v both.0 all), both.0.since.quiet, still))
        (λ v stopped. stopped.0.1)

  processes_steps :
      (wf : Workflow) (v : World)
      → wf.meta ≡ base.meta
      → process cluster key wf v ≡ process_steps cluster key wf v
  unfolding process process_by_labels
  processes_steps wf v same =
      ap
        (λ (o : Option String).
          process_by_labels cluster key wf o (get workflow_valid_label wf.meta.labels) v)
        (ap (λ (m : ObjectMeta). get workflow_uid_label m.labels) same ∙ labelled.has_uid)
      ∙ ap (λ (o : Option String). process_by_labels cluster key wf (some labelled.uid) o v)
          (ap (λ (m : ObjectMeta). get workflow_valid_label m.labels) same ∙ labelled.was_valid)

  may_be_processed :
      (wf : Workflow) (w : World)
      → wf.meta ≡ base.meta
      → is_finished wf ≡ false
      → may cluster wf w ≡ true
  unfolding is_paused
  may_be_processed wf w same open_one =
      let unpaused : is_paused wf ≡ false =
        ap
          (λ (m : ObjectMeta). elim (get workflow_pause_label m.labels) [
            | none ↦ false
            | some pause ↦ pause == true_string
          ])
          same
        ∙ labelled.unpaused in
      simp (helps.synced w.asked, open_one, unpaused)

  transition_steps :
      (wf : Workflow) (w : World)
      → lookup key w.store ≡ some wf
      → wf.meta ≡ base.meta
      → is_finished wf ≡ false
      → transition_workflow cluster key w
        ≡ (process_steps cluster key wf >>= finish_transition cluster)
            (record w { asked = suc w.asked })
  unfolding transition_workflow transition_existing preconditions_met
  transition_steps wf w found same open_one =
      simp (found, may_be_processed wf w same open_one)
        (ap (λ r. continue_with r.0 (finish_transition cluster) r.1) (processes_steps wf _ same))

  -- A worker's round for the key.
  pub work-SentOrStill :
      (wf : Workflow) (w : World)
      → lookup key w.store ≡ some wf
      → IsLater wf
      → is_finished wf ≡ false
      → SentOrStill wf w (work cluster key w).1
  unfolding work
  work-SentOrStill wf w found later open_one =
      let w1 : World = record w { asked = suc w.asked } in
      world_of (SentOrStill wf w) (work cluster key w).0 (work cluster key w).1 (
        Runs-bind (λ t v. SentOrStill wf w v) (λ again v. SentOrStill wf w v) (λ v. ⊥)
          (transition_workflow cluster key)
          (λ t. pure (if t.requeue then some (t.requeue_after, key) else none)) w
          (subst (Runs (λ t v. SentOrStill wf w v) (λ v. ⊥))
            (sym (transition_steps wf w found later.0 open_one))
            (Runs-bind (λ r v. Moved wf r.0 × (v.updates ≡ w1.updates) × Still wf w1 r v)
              (λ t v. SentOrStill wf w v) (λ v. ⊥) (process_steps cluster key wf)
              (finish_transition cluster) w1 (process_steps-Moved wf w1 later)
              (λ r v (moved, quiet, still). finish-SentOrStill wf w r v moved quiet still)))
          (λ t v h. h))
