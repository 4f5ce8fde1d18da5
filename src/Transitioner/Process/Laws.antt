-- ===== src/Transitioner/Process/Laws.antt =====
-- When a transition processes a workflow, and what it does with an invalid one.
use kubernetes_workflow.Base.{
  suc, String, List, [], ◌∷◌, Bool, true, false, ◌&&◌, not, Option, some, none, if◌then◌else◌, ◌≡◌,
  ◌≢◌, inl, inr, refl, ◌∙◌, ap, Bool-cases,
}
use kubernetes_workflow.GoMap.{GoMap, get, assign, lookup}
use kubernetes_workflow.Api.Types.{Workflow, workflow_uid_label}
use kubernetes_workflow.Api.Methods.{is_finished}
use kubernetes_workflow.Validation.Workflow.{validate_workflow}
use kubernetes_workflow.Cache.{is_empty}
use kubernetes_workflow.World.{Cluster, World, ok}
use kubernetes_workflow.Transitioner.State.{
  workflow_valid_label, with_labels, share_labels, requeue_jobstore_not_synced_time,
}
use kubernetes_workflow.Transitioner.Process.{
  wants_validation, is_missing, is_paused, is_workflow_valid, process_labelled, label_validity,
  process_by_labels, process, preconditions_met, decline, transition_existing, transition_workflow,
}

nonempty {ℓ} : {A : Type ℓ} (l : List A) → l ≢ [] → is_empty l ≡ false
nonempty [] h = absurd (h refl)
nonempty (x ∷ l) h = refl

module _ (cluster : Cluster) where
  -- The answer to the first question lets the workflow be processed.
  abbrev pub may : Workflow → World → Bool
  may wf w = cluster.synced w.asked && (not (is_finished wf) && not (is_paused wf))

  -- A workflow whose preconditions fail is left alone: no map, job, update or expectation changes. It
  -- is requeued exactly where the job store answers the second question with no, whatever it
  -- answered to the first one.
  pub transition_workflow_declines :
      (key : String) (wf : Workflow) (w : World)
      → lookup key w.store ≡ some wf
      → may wf w ≡ false
      → transition_workflow cluster key w ≡ (
        ok (record {
          requeue = not (cluster.synced (suc w.asked));
          requeue_after =
              if cluster.synced (suc w.asked) then 0 else requeue_jobstore_not_synced_time;
          error = none;
        }),
        record w { asked = suc (suc w.asked) },
      )
  unfolding transition_workflow transition_existing preconditions_met decline
  transition_workflow_declines key wf w found declined =
      elim (Bool-cases (cluster.synced (suc w.asked))) [
        | inl now_synced ↦ simp (found, declined, now_synced)
        | inr unsynced ↦ simp (found, declined, unsynced)
      ]

  invalid :
      (wf : Workflow)
      → validate_workflow cluster.rules wf ≢ []
      → is_workflow_valid cluster wf ≡ false
  unfolding is_workflow_valid
  invalid wf errors = nonempty (validate_workflow cluster.rules wf) errors

  label_invalid :
      (key : String) (wf : Workflow) (was : Option String) (labels : GoMap String) (w : World)
      → assign workflow_valid_label "false" wf.meta.labels ≡ some labels
      → label_validity cluster key wf was false w ≡ (
        ok (with_labels labels wf, is_missing was),
        (share_labels key (with_labels labels wf) w).1,
      )
  unfolding label_validity process_labelled share_labels
  label_invalid key wf was labels w written = simp written

  process_by_labels_invalid :
      (key : String) (wf : Workflow) (uid : String) (was : Option String) (labels : GoMap String)
      (w : World)
      → wants_validation was ≡ true
      → validate_workflow cluster.rules wf ≢ []
      → assign workflow_valid_label "false" wf.meta.labels ≡ some labels
      → process_by_labels cluster key wf (some uid) was w ≡ (
        ok (with_labels labels wf, is_missing was),
        (share_labels key (with_labels labels wf) w).1,
      )
  unfolding process_by_labels
  process_by_labels_invalid key wf uid was labels w wants errors written =
      simp (wants, invalid wf errors, label_invalid key wf was labels w written)

  -- An invalid workflow is labelled so, and none of its steps is processed: no job is created and
  -- nothing is sent. An update is wanted only where it had no such label before.
  pub process_invalid :
      (key : String) (wf : Workflow) (uid : String) (labels : GoMap String) (w : World)
      → get workflow_uid_label wf.meta.labels ≡ some uid
      → wants_validation (get workflow_valid_label wf.meta.labels) ≡ true
      → validate_workflow cluster.rules wf ≢ []
      → assign workflow_valid_label "false" wf.meta.labels ≡ some labels
      → process cluster key wf w ≡ (
        ok (with_labels labels wf, is_missing (get workflow_valid_label wf.meta.labels)),
        (share_labels key (with_labels labels wf) w).1,
      )
  unfolding process
  process_invalid key wf uid labels w has wants errors written =
      ap
        (λ (o : Option String).
          process_by_labels cluster key wf o (get workflow_valid_label wf.meta.labels) w)
        has
      ∙ process_by_labels_invalid key wf uid _ labels w wants errors written
