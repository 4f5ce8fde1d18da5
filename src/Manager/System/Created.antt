-- ===== src/Manager/System/Created.antt =====
-- A workflow as it was created, to its end.
use kubernetes_workflow.Base.{
  ℕ, suc, String, [], ◌∷◌, Bool, true, false, Option, some, none, ◌==◌, ◌≡◌, refl, ap, ◌∙◌, arith,
  eq_iff,
}
use kubernetes_workflow.GoMap.{GoMap, get, lookup, assign}
use kubernetes_workflow.Api.Meta.{Job}
use kubernetes_workflow.Api.Types.{Workflow, workflow_uid_label}
use kubernetes_workflow.Api.Methods.{set_labels, set_defaults, is_finished}
use kubernetes_workflow.Api.Laws.{Defaulted, set_defaults-Defaulted}
use kubernetes_workflow.Validation.Sort.Correct.{KeepsElements}
use kubernetes_workflow.Validation.Workflow.{validate_workflow}
use kubernetes_workflow.World.{Cluster, World, ok, updated, ◌>>=◌}
use kubernetes_workflow.Transitioner.State.{
  workflow_valid_label, workflow_pause_label, true_string, with_labels, share_labels,
  share_selector,
}
use kubernetes_workflow.Transitioner.Status.{with_version}
use kubernetes_workflow.Transitioner.Status.Laws.{update_workflow_status-accepted}
use kubernetes_workflow.Transitioner.Process.{
  is_paused, set_defaults_on_copy, process_by_labels, process, preconditions_met, finish_transition,
  transition_existing, transition_workflow,
}
use kubernetes_workflow.World.Runs.{bind-ok}
use kubernetes_workflow.Transitioner.Process.Forgotten.{world_of_map}
use kubernetes_workflow.Transitioner.Process.Rule.{KeysByName}
use kubernetes_workflow.Manager.{work}
use kubernetes_workflow.Manager.System.{System}
use kubernetes_workflow.Manager.System.Turns.{turn, turns, turn-sent}
use kubernetes_workflow.Manager.System.Labelled.{Cooperates}
use kubernetes_workflow.Manager.System.Submitted.{submitted_finishes}

-- What holds of the workflow with its defaults, whenever they are set: it has no errors, its labels can
-- be written, and the outside cooperates once it is labelled valid.
pub record Runnable (cluster : Cluster) (key : String) (wf : Workflow) : Type 0 where
  pub labels : GoMap String
  pub valid : validate_workflow cluster.rules wf ≡ []
  pub written : assign workflow_valid_label "true" wf.meta.labels ≡ some labels
  pub helps : Cooperates cluster key (with_labels labels wf)

module _ (wf wf1 : Workflow) (now : ℕ) (defaulted : set_defaults now wf ≡ some wf1) where
  default_of : Defaulted now wf wf1
  default_of = set_defaults-Defaulted now wf wf1 defaulted

  unpaused_kept : is_paused wf ≡ false → is_paused wf1 ≡ false
  unfolding is_paused
  unpaused_kept unpaused =
      ap (λ (o : Option String). elim o [ none ↦ false | some pause ↦ pause == true_string ])
        (default_of.other_labels workflow_pause_label
          (λ e. ground (arith, eq_iff workflow_pause_label workflow_uid_label)))
      ∙ unpaused

  open_kept : is_finished wf ≡ false → is_finished wf1 ≡ false
  unfolding is_finished
  open_kept open_one = rw default_of.same_conditions open_one

  unvalidated_kept :
      get workflow_valid_label wf.meta.labels ≡ none
      → get workflow_valid_label wf1.meta.labels ≡ none
  unvalidated_kept unvalidated =
      default_of.other_labels workflow_valid_label
        (λ e. ground (arith, eq_iff workflow_valid_label workflow_uid_label))
      ∙ unvalidated

module _ (cluster : Cluster) (key : String) (wf : Workflow)
    (unlabelled : get workflow_uid_label wf.meta.labels ≡ none) (unpaused : is_paused wf ≡ false)
    (open_one : is_finished wf ≡ false) (synced : (i : ℕ) → cluster.synced i ≡ true) where
  transition_defaults :
      (w : World)
      → lookup key w.store ≡ some wf
      → transition_workflow cluster key w
        ≡ (set_defaults_on_copy cluster key wf >>= finish_transition cluster)
            (record w { asked = suc w.asked })
  unfolding transition_workflow transition_existing preconditions_met process process_by_labels
  transition_defaults w found = simp (found, synced w.asked, open_one, unpaused, unlabelled)

  -- The world after the defaults of the copy were set.
  abbrev after_defaults : Workflow → World → World
  after_defaults wf1 w =
      (share_selector key wf1
        (share_labels key (set_labels ((workflow_uid_label, wf.meta.uid) ∷ []) wf)
          (record w { asked = suc w.asked })).1).1

  defaults_run :
      (wf1 : Workflow) (w : World)
      → set_defaults (cluster.now w.asked) wf ≡ some wf1
      → set_defaults_on_copy cluster key wf w ≡ (ok (wf1, true), after_defaults wf1 w)
  unfolding set_defaults_on_copy share_labels share_selector
  defaults_run wf1 w defaulted = simp defaulted

  finish-accepted :
      (wf1 : Workflow) (v : World)
      → cluster.update v.asked (with_version wf1.meta.resource_version wf1) ≡ updated
      → (finish_transition cluster (wf1, true) v).1.updates ≡ wf1 ∷ v.updates
  unfolding finish_transition
  finish-accepted wf1 v accepted = rw (update_workflow_status-accepted cluster wf1 v accepted) refl

  -- A round sends the workflow with its defaults.
  work-defaults :
      (wf1 : Workflow) (w : World)
      → lookup key w.store ≡ some wf
      → set_defaults (cluster.now (suc w.asked)) wf ≡ some wf1
      → cluster.update (suc (suc w.asked)) (with_version wf1.meta.resource_version wf1) ≡ updated
      → (work cluster key w).1.updates ≡ wf1 ∷ w.updates
  unfolding work share_labels share_selector
  work-defaults wf1 w found defaulted accepted =
      let w1 : World = record w { asked = suc w.asked } in
      ap (λ v. v.updates) (world_of_map (transition_workflow cluster key w) _)
      ∙ ap (λ r. r.1.updates)
          (transition_defaults w found
            ∙ bind-ok (set_defaults_on_copy cluster key wf) (finish_transition cluster) w1
                (defaults_run wf1 w1 defaulted))
      ∙ finish-accepted wf1 (after_defaults wf1 w1) accepted

-- A stored workflow as it was created, without a UID label and a valid label, is finished after some
-- turns, in which a worker is given its key and the informer reports what the round sent: where it is
-- not finished and not asked to pause, and its defaults can be set at any time, after which it has no
-- errors and its labels can be written; the job store has synced and has one job of each step, with the
-- workflow's new labels, which is finished and to which a reference can be made, and the server accepts
-- every update of it. The sort of texts keeps the elements of a
-- list, and keys are made of names and namespaces.
pub created_finishes :
    (cluster : Cluster) (deep_equal : Job → Job → Bool) (key : String) (wf : Workflow)
    (result : ℕ → Workflow) (s : System)
    → KeysByName cluster
    → KeepsElements cluster.rules.sort_strings
    → ((now : ℕ) → set_defaults now wf ≡ some (result now))
    → ((now : ℕ) → Runnable cluster key (result now))
    → get workflow_uid_label wf.meta.labels ≡ none
    → get workflow_valid_label wf.meta.labels ≡ none
    → is_paused wf ≡ false
    → is_finished wf ≡ false
    → lookup key s.world.store ≡ some wf
    → (n : ℕ) × (wf' : Workflow) × (lookup key (turns cluster deep_equal key n s).world.store
        ≡ some wf')
      × (is_finished wf' ≡ true)
unfolding turns
created_finishes cluster deep_equal key wf result s by_name keeps defaulted runs unlabelled
      unvalidated unpaused open_one found =
    let now = cluster.now (suc s.world.asked) in
    let wf1 = result now in
    let run = runs now in
    let d = default_of wf wf1 now (defaulted now) in
    let sent =
      work-defaults cluster key wf unlabelled unpaused open_one run.helps.synced wf1 s.world found
        (defaulted now) (run.helps.accepts _ _ refl) in
    let found' =
      turn-sent cluster deep_equal key wf1 s sent
        (by_name wf1.meta (with_labels run.labels wf1).meta refl refl ∙ run.helps.keyed) in
    let (n, wf', there, finished) =
      submitted_finishes cluster deep_equal key wf1 run.labels wf.meta.uid []
        (turn cluster deep_equal key s) keeps run.valid d.fresh_statuses d.labelled
        (unvalidated_kept wf wf1 now (defaulted now) unvalidated) run.written
        (unpaused_kept wf wf1 now (defaulted now) unpaused)
        (open_kept wf wf1 now (defaulted now) open_one) run.helps found' in
    (suc n, wf', there, finished)
