-- ===== src/Manager/System/Submitted.antt =====
-- A workflow that has its defaults and was not validated yet, to its end.
use kubernetes_workflow.Base.{
  ℕ, suc, String, List, [], ◌∷◌, Bool, true, false, ◌||◌, Option, some, none, ◌≡◌, refl, sym, ap,
  ◌∙◌, subst, arith, if◌then◌else◌,
}
use kubernetes_workflow.GoMap.{GoMap, made, entries, keys, get, lookup, assign}
use kubernetes_workflow.Api.Meta.{Job}
use kubernetes_workflow.Api.Types.{Workflow, WorkflowStepStatus, workflow_uid_label}
use kubernetes_workflow.Api.Methods.{is_finished}
use kubernetes_workflow.Validation.Sort.Correct.{KeepsElements}
use kubernetes_workflow.Validation.Workflow.{validate_workflow}
use kubernetes_workflow.Validation.Workflow.Laws.{IsRunnable, validate_workflow-IsRunnable}
use kubernetes_workflow.World.{Cluster, World, pure, ◌>>=◌}
use kubernetes_workflow.World.Runs.{Runs, Runs-bind}
use kubernetes_workflow.Transitioner.State.{
  workflow_valid_label, workflow_pause_label, with_labels, share_labels,
}
use kubernetes_workflow.Transitioner.Steps.{process_steps}
use kubernetes_workflow.Transitioner.Steps.Completion.{bound_of}
use kubernetes_workflow.Transitioner.Steps.Still.{Still}
use kubernetes_workflow.Transitioner.Process.{
  is_paused, is_workflow_valid, process_labelled, label_validity, process_by_labels, process,
  preconditions_met, finish_transition, transition_existing, transition_workflow,
}
use kubernetes_workflow.GoMap.Laws.{get-assign}
use kubernetes_workflow.Transitioner.Status.{with_version}
use kubernetes_workflow.Transitioner.Status.Laws.{update_workflow_status-accepted}
use kubernetes_workflow.Manager.{work}
use kubernetes_workflow.Manager.System.{System}
use kubernetes_workflow.Manager.System.Turns.{turn-sent, turns}
use kubernetes_workflow.Manager.System.Labelled.{
  Cooperates, IsLabelled, world_of, Moved, process_steps-Moved,
}
use kubernetes_workflow.Manager.System.Finish.{FinishesFrom, FinishesFrom-turn, turns-finish}

module _ (cluster : Cluster) (key : String) (wf : Workflow) (labels : GoMap String)
    (helps : Cooperates cluster key (with_labels labels wf)) (uid : String)
    (has_uid : get workflow_uid_label wf.meta.labels ≡ some uid)
    (unvalidated : get workflow_valid_label wf.meta.labels ≡ none) (unpaused : is_paused wf ≡ false)
    (written : assign workflow_valid_label "true" wf.meta.labels ≡ some labels) where
  -- The workflow as the round labels it.
  abbrev labelled_wf : Workflow
  labelled_wf = with_labels labels wf

  labelled_wf-IsLabelled : IsLabelled labelled_wf
  unfolding is_paused lookup
  labelled_wf-IsLabelled = record {
    uid = uid;
    has_uid =
        get-assign workflow_uid_label workflow_valid_label "true" wf.meta.labels labels written
        ∙ has_uid;
    was_valid =
        get-assign workflow_valid_label workflow_valid_label "true" wf.meta.labels labels written;
    unpaused =
        rw
          (get-assign workflow_pause_label workflow_valid_label "true" wf.meta.labels labels
            written)
          unpaused;
  }

  abbrev MovedOn : Workflow → Type 0
  MovedOn wf' = Moved cluster key labelled_wf helps labelled_wf-IsLabelled labelled_wf wf'

  validated : validate_workflow cluster.rules wf ≡ [] → is_workflow_valid cluster wf ≡ true
  unfolding is_workflow_valid
  validated valid = rw valid refl

  -- `process` labels the workflow valid, and then processes its steps.
  process_validates :
      (v : World)
      → validate_workflow cluster.rules wf ≡ []
      → process cluster key wf v
        ≡ (process_steps cluster key labelled_wf >>= λ r. pure (r.0, r.1 || true))
            (share_labels key labelled_wf v).1
  unfolding process process_by_labels label_validity process_labelled share_labels
  process_validates v valid =
      ap
        (λ (o : Option String).
          process_by_labels cluster key wf o (get workflow_valid_label wf.meta.labels) v)
        has_uid
      ∙ ap (λ (o : Option String). process_by_labels cluster key wf (some uid) o v) unvalidated
      ∙ simp (validated valid, written)

  -- A round that labels the workflow sends it.
  finish-sent :
      (wf' : Workflow) (w v : World)
      → MovedOn wf'
      → v.updates ≡ w.updates
      → Runs
          (λ t u. (x : Workflow) × MovedOn x × (u.updates ≡ x ∷ w.updates))
          (λ u. ⊥)
          (finish_transition cluster (wf', true) v)
  unfolding finish_transition
  finish-sent wf' w v moved quiet =
      rw
        (update_workflow_status-accepted cluster wf' v (
          helps.accepts v.asked (with_version wf'.meta.resource_version wf')
            (ap (λ m. m.name) moved.0.0.0)))
        (wf', moved, ap (λ u. wf' ∷ u) quiet)

  Or-true : (b : Bool) → b || true ≡ true
  Or-true true = refl
  Or-true false = refl

  -- The workflow was sent.
  abbrev WasSent : World → World → Type 0
  WasSent w u = (x : Workflow) × MovedOn x × (u.updates ≡ x ∷ w.updates)

  module _ (valid : validate_workflow cluster.rules wf ≡ [])
      (statuses : List (String × WorkflowStepStatus))
      (was : wf.status.statuses ≡ made statuses) where
    process-Moved :
        (v : World)
        → Runs
            (λ r u. MovedOn r.0 × (u.updates ≡ v.updates) × (r.1 ≡ true))
            (λ u. ⊥)
            (process cluster key wf v)
    unfolding share_labels
    process-Moved v =
        let v' = (share_labels key labelled_wf v).1 in
        subst (Runs (λ r u. MovedOn r.0 × (u.updates ≡ v.updates) × (r.1 ≡ true)) (λ u. ⊥))
          (sym (process_validates v valid))
          (Runs-bind (λ r u. MovedOn r.0 × (u.updates ≡ v'.updates) × Still labelled_wf v' r u)
            (λ r u. MovedOn r.0 × (u.updates ≡ v.updates) × (r.1 ≡ true)) (λ u. ⊥)
            (process_steps cluster key labelled_wf) (λ r. pure (r.0, r.1 || true)) v'
            (process_steps-Moved cluster key labelled_wf helps labelled_wf-IsLabelled labelled_wf v'
              (refl, refl, (statuses, was)))
            (λ r u (moved, quiet, still). (moved, quiet, Or-true r.1)))

    transition_processes :
        (w : World)
        → lookup key w.store ≡ some wf
        → is_finished wf ≡ false
        → transition_workflow cluster key w
          ≡ (process cluster key wf >>= finish_transition cluster)
              (record w { asked = suc w.asked })
    unfolding transition_workflow transition_existing preconditions_met
    transition_processes w found open_one = simp (found, helps.synced w.asked, open_one, unpaused)

    work-WasSent :
        (w : World)
        → lookup key w.store ≡ some wf
        → is_finished wf ≡ false
        → WasSent w (work cluster key w).1
    unfolding work
    work-WasSent w found open_one =
        let w1 : World = record w { asked = suc w.asked } in
        world_of (WasSent w) (work cluster key w).0 (work cluster key w).1 (
          Runs-bind (λ t u. WasSent w u) (λ again u. WasSent w u) (λ u. ⊥)
            (transition_workflow cluster key)
            (λ t. pure (if t.requeue then some (t.requeue_after, key) else none)) w
            (subst (Runs (λ t u. WasSent w u) (λ u. ⊥))
              (sym (transition_processes w found open_one))
              (Runs-bind (λ r u. MovedOn r.0 × (u.updates ≡ w1.updates) × (r.1 ≡ true))
                (λ t u. WasSent w u) (λ u. ⊥) (process cluster key wf) (finish_transition cluster)
                w1 (process-Moved w1)
                (λ r u (moved, quiet, wanted).
                  subst
                    (λ b. Runs (λ t z. WasSent w z) (λ z. ⊥) (finish_transition cluster (r.0, b) u))
                    (sym wanted) (finish-sent r.0 w u moved quiet))))
            (λ t u h. h))

    module _ (deep_equal : Job → Job → Bool) (runnable : IsRunnable (entries wf.spec.steps)) where
      -- The first turn validates the workflow; the ones after it finish it.
      submitted-FinishesFrom :
          (s : System)
          → lookup key s.world.store ≡ some wf
          → is_finished wf ≡ false
          → FinishesFrom cluster key labelled_wf helps labelled_wf-IsLabelled deep_equal s
      submitted-FinishesFrom s found open_one =
          let (wf', moved, sent) = work-WasSent s.world found open_one in
          let (bound, below) = bound_of runnable.rank (keys (entries wf.spec.steps)) in
          let found' =
            turn-sent cluster deep_equal key wf' s sent
              (ap cluster.key_func moved.0.0.0 ∙ helps.keyed) in
          FinishesFrom-turn cluster key labelled_wf helps labelled_wf-IsLabelled deep_equal s (
            turns-finish cluster key labelled_wf helps labelled_wf-IsLabelled deep_equal runnable
              bound 0 wf' _ found' moved.0.0 (λ name step has low. absurd (omega (arith, low)))
              (λ n there. omega (arith, below n there)))

-- A stored workflow without errors, which has a UID label and was not validated yet, is finished after
-- some turns, in which a worker is given its key and the informer reports what the round sent: where it
-- is not finished and not asked to pause, its map of statuses is made, the job store has synced and has
-- one job of each step, with the workflow's new label, which is finished and to which a reference can be
-- made, and the server accepts every update of it. The sort of texts keeps the elements of a list.
pub submitted_finishes :
    (cluster : Cluster) (deep_equal : Job → Job → Bool) (key : String) (wf : Workflow)
    (labels : GoMap String) (uid : String) (statuses : List (String × WorkflowStepStatus))
    (s : System)
    → KeepsElements cluster.rules.sort_strings
    → validate_workflow cluster.rules wf ≡ []
    → wf.status.statuses ≡ made statuses
    → get workflow_uid_label wf.meta.labels ≡ some uid
    → get workflow_valid_label wf.meta.labels ≡ none
    → assign workflow_valid_label "true" wf.meta.labels ≡ some labels
    → is_paused wf ≡ false
    → is_finished wf ≡ false
    → Cooperates cluster key (with_labels labels wf)
    → lookup key s.world.store ≡ some wf
    → (n : ℕ) × (wf' : Workflow) × (lookup key (turns cluster deep_equal key n s).world.store
        ≡ some wf')
      × (is_finished wf' ≡ true)
submitted_finishes cluster deep_equal key wf labels uid statuses s keeps valid was has_uid
      unvalidated written unpaused open_one helps found =
    submitted-FinishesFrom cluster key wf labels helps uid has_uid unvalidated unpaused written
      valid statuses was deep_equal (validate_workflow-IsRunnable cluster.rules keeps wf valid).0 s
      found open_one
