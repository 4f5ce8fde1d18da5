-- ===== src/Transitioner/Process/Forgotten.antt =====
-- What becomes of a change of a workflow whose update failed: the stored workflow has it already, since
-- the copy shares its maps.
use kubernetes_workflow.Base.{
  ℕ, suc, String, List, [], ◌∷◌, Bool, true, false, ◌&&◌, not, Option, some, none, ◌≡◌, ◌≢◌, refl,
  ap, ◌∙◌, arith,
}
use kubernetes_workflow.GoMap.{GoMap, nil_map, made, get, assign, lookup, insert}
use kubernetes_workflow.GoMap.Laws.{get-assign}
use kubernetes_workflow.Api.Types.{Workflow, workflow_uid_label}
use kubernetes_workflow.Api.Methods.{is_finished}
use kubernetes_workflow.Validation.Workflow.{validate_workflow}
use kubernetes_workflow.World.{Cluster, World, Result, ok, panicked, pure, continue_with}
use kubernetes_workflow.Transitioner.State.{
  workflow_valid_label, workflow_pause_label, with_labels, update_entry, share_labels, shared_map,
}
use kubernetes_workflow.Transitioner.Status.{update_workflow_status}
use kubernetes_workflow.Transitioner.Status.Laws.{update_workflow_status-Sent}
use kubernetes_workflow.Transitioner.Process.{
  settled, wants_validation, is_missing, is_paused, process, preconditions_met, finish_transition,
  transition_existing, transition_workflow,
}
use kubernetes_workflow.Transitioner.Process.Laws.{may, process_invalid}

lookup-update_entry :
    (key : String) (f : Workflow → Workflow) (store : List (String × Workflow)) (wf : Workflow)
    → lookup key store ≡ some wf
    → lookup key (update_entry key f store) ≡ some (f wf)
unfolding update_entry lookup
lookup-update_entry key f [] wf found = cc
lookup-update_entry key f ((k, x) ∷ store) wf found =
    ground (arith, lookup-update_entry key f store wf)

-- A made map of labels is shared.
shared_made :
    (labels : GoMap String) (key value : String) (written : GoMap String)
    → assign key value labels ≡ some written
    → shared_map labels written ≡ written
shared_made nil_map key value written e = cc
shared_made (made m) key value written e = refl

-- An action that goes on with a value only leaves the same world.
pub world_of_map :
    {A B : Type 0} (r : Result A × World) (f : A → B)
    → (continue_with r.0 (λ a. pure (f a)) r.1).1 ≡ r.1
world_of_map (ok a, w) f = refl
world_of_map (panicked, w) f = refl

-- A map that was written to can be written to.
assign_again :
    (key value other : String) (labels written : GoMap String)
    → assign key value labels ≡ some written
    → (later : GoMap String) × (assign key other written ≡ some later)
assign_again key value other nil_map written e = cc
assign_again key value other (made m) written e =
    let same : made (insert key value m) ≡ written = cc in
    (made (insert key other (insert key value m)), rw (← same) refl)

module _ (cluster : Cluster) where
  transition_processed :
      (key : String) (wf : Workflow) (w w' : World) (r : Workflow × Bool)
      → lookup key w.store ≡ some wf
      → may cluster wf w ≡ true
      → process cluster key wf (record w { asked = suc w.asked }) ≡ (ok r, w')
      → transition_workflow cluster key w ≡ finish_transition cluster r w'
  unfolding transition_workflow transition_existing preconditions_met
  transition_processed key wf w w' r found met processed = simp (found, met, processed)

  finish_transition-store :
      (r : Workflow × Bool) (w : World) → (finish_transition cluster r w).1.store ≡ w.store
  unfolding finish_transition
  finish_transition-store (wf, false) w = refl
  finish_transition-store (wf, true) w =
      ap (λ v. v.store) (world_of_map (update_workflow_status cluster wf w) _)
      ∙ (update_workflow_status-Sent cluster wf w).rest.0

  -- The preconditions do not look at the valid label.
  may_labelled :
      (wf : Workflow) (value : String) (labels : GoMap String) (w : World)
      → ((i : ℕ) → cluster.synced i ≡ true)
      → assign workflow_valid_label value wf.meta.labels ≡ some labels
      → not (is_finished wf) && not (is_paused wf) ≡ true
      → may cluster (with_labels labels wf) w ≡ true
  unfolding is_finished is_paused lookup
  may_labelled wf value labels w synced written ready =
      let unpaused =
        get-assign workflow_pause_label workflow_valid_label value wf.meta.labels labels written in
      simp (synced w.asked) (rw unpaused ready)

  -- A stored workflow that was labelled invalid already leads to no update.
  labelled_again :
      (key : String) (wf : Workflow) (uid : String) (labels : GoMap String) (w : World)
      → lookup key w.store ≡ some wf
      → may cluster wf w ≡ true
      → get workflow_uid_label wf.meta.labels ≡ some uid
      → get workflow_valid_label wf.meta.labels ≡ some "false"
      → validate_workflow cluster.rules wf ≢ []
      → assign workflow_valid_label "false" wf.meta.labels ≡ some labels
      → ((transition_workflow cluster key w).0 ≡ ok settled)
        × ((transition_workflow cluster key w).1.updates ≡ w.updates)
  unfolding share_labels finish_transition
  labelled_again key wf uid labels w found met has was errors written =
      let processed =
        process_invalid cluster key wf uid labels (record w { asked = suc w.asked }) has
          (rw was refl) errors written in
      let ends = transition_processed key wf w _ _ found met processed in
      let done =
        ends
        ∙ ap
            (λ (o : Option String).
              finish_transition cluster (with_labels labels wf, is_missing o)
                (share_labels key (with_labels labels wf) (record w { asked = suc w.asked })).1)
            was in
      (ap (λ r. r.0) done, ap (λ r. r.1.updates) done)

  -- After an invalid workflow was labelled, the store has the label, whatever became of the update.
  labelled_stored :
      (key : String) (wf : Workflow) (uid : String) (labels : GoMap String) (w : World)
      → lookup key w.store ≡ some wf
      → may cluster wf w ≡ true
      → get workflow_uid_label wf.meta.labels ≡ some uid
      → wants_validation (get workflow_valid_label wf.meta.labels) ≡ true
      → validate_workflow cluster.rules wf ≢ []
      → assign workflow_valid_label "false" wf.meta.labels ≡ some labels
      → lookup key (transition_workflow cluster key w).1.store ≡ some (with_labels labels wf)
  unfolding share_labels
  labelled_stored key wf uid labels w found met has wants errors written =
      let ends = transition_processed key wf w _ _ found met (
        process_invalid cluster key wf uid labels (record w { asked = suc w.asked }) has wants
          errors written) in
      ap (λ r. lookup key r.1.store) ends
      ∙ ap (lookup key) (finish_transition-store _ _)
      ∙ lookup-update_entry key _ w.store wf found
      ∙ ap (λ l. some (with_labels l wf))
          (shared_made wf.meta.labels workflow_valid_label "false" labels written)

  -- An invalid workflow with a UID label and without a valid label is labelled by a transition, and
  -- the update that sends the label may fail. Whatever the server answered, the next transition of the
  -- key, where the informer has stored nothing in between, sends nothing and is not repeated: the
  -- workflow is not finished and not paused, the job store has synced, and the workflow is invalid with
  -- the label too.
  pub unsent_label_forgotten :
      (key : String) (wf : Workflow) (uid : String) (labels : GoMap String) (w : World)
      → lookup key w.store ≡ some wf
      → ((i : ℕ) → cluster.synced i ≡ true)
      → not (is_finished wf) && not (is_paused wf) ≡ true
      → get workflow_uid_label wf.meta.labels ≡ some uid
      → get workflow_valid_label wf.meta.labels ≡ none
      → validate_workflow cluster.rules wf ≢ []
      → assign workflow_valid_label "false" wf.meta.labels ≡ some labels
      → validate_workflow cluster.rules (with_labels labels wf) ≢ []
      → (let w1 = (transition_workflow cluster key w).1 in
          ((transition_workflow cluster key w1).0 ≡ ok settled)
          × ((transition_workflow cluster key w1).1.updates ≡ w1.updates))
  unfolding lookup
  unsent_label_forgotten key wf uid labels w found synced ready has unlabelled errors written
        still =
      let (labels', again) =
        assign_again workflow_valid_label "false" "false" wf.meta.labels labels written in
      labelled_again key (with_labels labels wf) uid labels' _
        (labelled_stored key wf uid labels w found (simp (synced w.asked, ready)) has
          (rw unlabelled refl) errors written)
        (may_labelled wf "false" labels (transition_workflow cluster key w).1 synced written ready)
        (get-assign workflow_uid_label workflow_valid_label "false" wf.meta.labels labels written
          ∙ has)
        (get-assign workflow_valid_label workflow_valid_label "false" wf.meta.labels labels written)
        still again
