-- ===== src/Validation/Update.antt =====
-- pkg/validation/validation.go: which updates of a workflow are allowed.
pub mod Laws
use kubernetes_workflow.Base.{
  String, List, [], ◌∷◌, ◌++◌, Bool, true, false, Option, some, none, if◌then◌else◌, member,
}
use kubernetes_workflow.GoMap.{GoMap, entries, get, is_nil, keys}
use kubernetes_workflow.Api.Types.{
  Workflow, WorkflowSpec, WorkflowStep, WorkflowStatus, WorkflowStepStatus,
}
use kubernetes_workflow.Validation.Field.{
  FieldPath, FieldError, ErrorList, Rules, forbidden, message, about_step,
}
use kubernetes_workflow.Validation.Sort.{Steps}
use kubernetes_workflow.Validation.Workflow.{
  child, validate_workflow_spec, validate_workflow_status,
}

-- The two maps that hold only the value true, as the lists of their keys.
pub record StepSets : Type 0 where
  pub running : List String
  pub completed : List String

-- The loop of `getWorkflowRunningAndCompletedSteps`.
unfoldable pub collect : GoMap WorkflowStepStatus → Steps → StepSets
collect statuses [] = record { running = []; completed = [] }
collect statuses ((k, v) ∷ steps) =
    let rest = collect statuses steps in
    elim (get k statuses) [
      | none ↦ rest
      | some st ↦
          if st.complete
          then (record rest { completed = k ∷ rest.completed })
          else (record rest { running = k ∷ rest.running })
    ]

unfoldable pub running_and_completed_steps : Workflow → StepSets
running_and_completed_steps wf =
    if is_nil wf.status.statuses
    then (record { running = []; completed = [] })
    else collect wf.status.statuses (entries wf.spec.steps)

-- The loop that sets `allCompleted`.
unfoldable pub all_completed : List String → List String → Bool
all_completed completed [] = true
all_completed completed (k ∷ ks) = if member k completed then all_completed completed ks else false

-- `oldSteps.Difference(newSteps)`.
unfoldable pub difference : List String → List String → List String
difference [] new = []
difference (k ∷ old) new = if member k new then difference old new else k ∷ difference old new

abbrev pub steps_path : FieldPath
steps_path = "spec" ∷ "steps" ∷ []

-- The loop over the removed steps, which returns at the first error.
unfoldable pub removed_error : StepSets → List String → Option FieldError
removed_error sets [] = none
removed_error sets (s ∷ removed) =
    if member s sets.running
    then some (forbidden steps_path (about_step "cannot delete running step" s))
    else (if member s sets.completed
        then some (forbidden steps_path (about_step "cannot delete completed step" s))
        else removed_error sets removed)

-- The zero value of a step, which a read of a missing key gives.
abbrev pub zero_step : WorkflowStep
zero_step = record { job_template = none; external_ref = none; dependencies = [] }

abbrev pub step_or_zero : String → GoMap WorkflowStep → WorkflowStep
step_or_zero k steps = elim (get k steps) [ none ↦ zero_step | some v ↦ v ]

-- The errors of one changed step.
unfoldable pub change_errors : StepSets → String → ErrorList
change_errors sets k =
    (if member k sets.running
      then forbidden steps_path (about_step "cannot modify running step" k) ∷ []
      else [])
    ++ (if member k sets.completed
        then forbidden steps_path (about_step "cannot modify completed step" k) ∷ []
        else [])

-- `ValidateWorkflowStatusUpdate`.
unfoldable pub validate_workflow_status_update :
    WorkflowStatus → WorkflowStatus → FieldPath → ErrorList
validate_workflow_status_update status old path = validate_workflow_status status path

module _ (rules : Rules) where
  -- The loop over the new steps.
  unfoldable pub modified_errors : StepSets → GoMap WorkflowStep → Steps → ErrorList
  modified_errors sets old [] = []
  modified_errors sets old ((k, v) ∷ steps) =
      (if rules.deep_equal v (step_or_zero k old) then [] else change_errors sets k)
      ++ modified_errors sets old steps

  unfoldable pub validate_workflow_spec_update :
      WorkflowSpec → WorkflowSpec → StepSets → FieldPath → ErrorList
  validate_workflow_spec_update spec old sets path =
      let errors =
        validate_workflow_spec rules spec path
        ++ rules.validate_immutable_field spec.jobs_selector old.jobs_selector
            (child path "jobsSelector") in
      let removed =
        rules.sort_strings (difference (keys (entries old.steps)) (keys (entries spec.steps))) in
      elim (removed_error sets removed) [
        | some e ↦ errors ++ e ∷ []
        | none ↦ errors ++ modified_errors sets old.steps (entries spec.steps)
      ]

  unfoldable pub validate_workflow_update : Workflow → Workflow → ErrorList
  validate_workflow_update wf old =
      let errors = rules.validate_object_meta_update wf.meta old.meta ("metadata" ∷ []) in
      let sets = running_and_completed_steps old in
      if all_completed sets.completed (keys (entries old.spec.steps))
      then errors ++ forbidden ("workflow" ∷ []) (message "cannot update completed workflow") ∷ []
      else (errors
          ++ (validate_workflow_spec_update wf.spec old.spec sets ("spec" ∷ [])
              ++ validate_workflow_status_update wf.status old.status ("status" ∷ [])))
