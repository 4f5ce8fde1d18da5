-- ===== src/Transitioner/Process.antt =====
-- pkg/workflow/transitioner.go: `process` and `transitionWorkflow`.
pub mod Laws
pub mod Declined
pub mod Creates
pub mod Safety
pub mod Rule
pub mod Forgotten
use kubernetes_workflow.Base.{
  ℕ, String, List, [], ◌∷◌, Bool, true, false, ◌&&◌, ◌||◌, not, Option, some, none, ◌==◌,
  if◌then◌else◌,
}
use kubernetes_workflow.GoMap.{GoMap, entries, get, assign, lookup}
use kubernetes_workflow.Api.Types.{Workflow, workflow_uid_label}
use kubernetes_workflow.Api.Methods.{set_labels, set_defaults, is_finished}
use kubernetes_workflow.Validation.Field.{ErrorList}
use kubernetes_workflow.Validation.Workflow.{validate_workflow}
use kubernetes_workflow.Expectations.{delete_expectations}
use kubernetes_workflow.Cache.{is_empty}
use kubernetes_workflow.World.{
  Cluster, World, Action, pure, ask, modify, read, or_panic, ◌>>=◌, ◌>>◌,
}
use kubernetes_workflow.Transitioner.State.{
  workflow_valid_label, workflow_pause_label, false_string, true_string,
  requeue_after_status_conflict_time, requeue_jobstore_not_synced_time, format_bool, with_labels,
  share_labels, share_selector,
}
use kubernetes_workflow.Transitioner.Status.{UpdateError, update_workflow_status}
use kubernetes_workflow.Transitioner.Steps.{process_steps}

-- The results of `transitionWorkflow`.
pub record Transition : Type 0 where
  pub requeue : Bool
  pub requeue_after : ℕ
  pub error : Option UpdateError

abbrev pub settled : Transition
settled = record { requeue = false; requeue_after = 0; error = none }

-- `pastActiveDeadline`.
unfoldable pub past_active_deadline : Workflow → Bool
past_active_deadline wf = false

-- The results after an update: a failure requeues.
abbrev pub update_result : Option UpdateError → Transition
update_result none = settled
update_result (some e) = record {
  requeue = true;
  requeue_after = requeue_after_status_conflict_time;
  error = some e;
}

-- The workflow was never labelled valid, or it was labelled invalid.
abbrev pub wants_validation : Option String → Bool
wants_validation none = true
wants_validation (some was_valid) = was_valid == false_string

abbrev pub is_missing {ℓ} : {A : Type ℓ} → Option A → Bool
is_missing none = true
is_missing (some a) = false

-- The workflow is asked to pause.
unfoldable pub is_paused : Workflow → Bool
is_paused wf = elim (get workflow_pause_label wf.meta.labels) [
  | none ↦ false
  | some pause ↦ pause == true_string
]

module _ (cluster : Cluster) where
  unfoldable pub is_workflow_valid : Workflow → Bool
  is_workflow_valid wf = is_empty (validate_workflow cluster.rules wf)

  -- `workflow.SetDefaults()` on the copy: where it panics, the labels are written already.
  unfoldable pub set_defaults_on_copy : String → Workflow → Action (Workflow × Bool)
  set_defaults_on_copy key wf = do
    now ← ask cluster.now
    share_labels key (set_labels ((workflow_uid_label, wf.meta.uid) ∷ []) wf)
    wf' ← or_panic (set_defaults now wf)
    share_selector key wf'
    pure (wf', true)

  -- What `process` does once the validity is known and labelled.
  unfoldable pub process_labelled : String → Workflow → Bool → Bool → Action (Workflow × Bool)
  process_labelled key wf first_time true = do
    r ← process_steps cluster key wf
    pure (r.0, r.1 || true)
  process_labelled key wf first_time false = pure (wf, first_time)

  -- The validity is written to the labels, and then acted on.
  unfoldable pub label_validity :
      String → Workflow → Option String → Bool → Action (Workflow × Bool)
  label_validity key wf was_valid is_valid = do
    labels ← or_panic (assign workflow_valid_label (format_bool is_valid) wf.meta.labels)
    let wf' = with_labels labels wf
    share_labels key wf'
    process_labelled key wf' (is_missing was_valid) is_valid

  -- `process`, given what the labels hold under the UID label and under the valid label.
  unfoldable pub process_by_labels :
      String → Workflow → Option String → Option String → Action (Workflow × Bool)
  process_by_labels key wf none was_valid = set_defaults_on_copy key wf
  process_by_labels key wf (some uid) was_valid =
      if wants_validation was_valid
      then label_validity key wf was_valid (is_workflow_valid wf)
      else process_steps cluster key wf

  -- `process`: the workflow, and whether its status is to be updated.
  unfoldable pub process : String → Workflow → Action (Workflow × Bool)
  process key wf =
      process_by_labels key wf (get workflow_uid_label wf.meta.labels)
        (get workflow_valid_label wf.meta.labels)

  -- `preconditionsMet`.
  unfoldable pub preconditions_met : Workflow → Action Bool
  preconditions_met wf = do
    synced ← ask cluster.synced
    pure (synced && (not (is_finished wf) && not (is_paused wf)))

  -- What follows `process`: the update, where one is needed.
  unfoldable pub finish_transition : Workflow × Bool → Action Transition
  finish_transition (wf, false) = pure settled
  finish_transition (wf, true) = do
    failure ← update_workflow_status cluster wf
    pure (update_result failure)

  -- Where a precondition failed: only a job store that has not synced requeues.
  unfoldable pub decline : Action Transition
  decline = do
    synced ← ask cluster.synced
    pure (
        if synced then settled else (record {
          requeue = true;
          requeue_after = requeue_jobstore_not_synced_time;
          error = none;
        }))

  -- What `transitionWorkflow` does with a workflow that the store has.
  unfoldable pub transition_existing : String → Workflow → Action Transition
  transition_existing key wf = do
    met ← preconditions_met wf
    if met then process key wf >>= finish_transition else decline

  unfoldable pub transition_workflow : String → Action Transition
  transition_workflow key = do
    found ← read (λ w. lookup key w.store)
    elim found [
      | none ↦
          modify (λ w. record w { expectations = delete_expectations key w.expectations })
          >> pure settled
      | some wf ↦ transition_existing key wf
    ]
