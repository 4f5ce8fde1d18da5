-- ===== src/Validation/Workflow.antt =====
-- pkg/validation/validation.go: the validation of a workflow.
pub mod Laws
pub mod Order
use kubernetes_workflow.Base.{
  String, List, [], ◌∷◌, ◌++◌, Bool, true, false, ◌&&◌, Option, some, none, if◌then◌else◌,
}
use kubernetes_workflow.GoMap.{GoMap, entries, is_nil}
use kubernetes_workflow.Api.Meta.{JobTemplateSpec, ObjectReference}
use kubernetes_workflow.Api.Types.{Workflow, WorkflowSpec, WorkflowStep, WorkflowStatus}
use kubernetes_workflow.Validation.Field.{
  FieldPath, FieldError, ErrorList, Rules, required, invalid, message,
}
use kubernetes_workflow.Validation.Sort.{
  Steps, Visit, returned, failed, out_of_fuel, topological_sort,
}

abbrev pub is_set {ℓ} : {A : Type ℓ} → Option A → Bool
is_set (some a) = true
is_set none = false

-- `fieldPath.Child(name)`.
abbrev pub child : FieldPath → String → FieldPath
child path name = path ++ name ∷ []

-- The second result of the sort, as errors. Running out of fuel is none of the code's outcomes.
abbrev pub errors_of : Visit (List String) → ErrorList
errors_of (returned sorted) = []
errors_of (failed e) = e ∷ []
errors_of out_of_fuel = []

-- The loop of `ValidateWorkflowSteps` over the steps.
unfoldable pub exclusive_errors : FieldPath → Steps → ErrorList
exclusive_errors path [] = []
exclusive_errors path ((k, v) ∷ steps) =
    (if is_set v.job_template && is_set v.external_ref
      then invalid path (some k) (message "jobTemplate and externalRef are mutually exclusive") ∷ []
      else [])
    ++ exclusive_errors path steps

module _ (rules : Rules) where
  unfoldable pub validate_workflow_steps : GoMap WorkflowStep → FieldPath → ErrorList
  validate_workflow_steps steps path =
      errors_of (topological_sort (entries steps) path rules.sort_strings)
      ++ exclusive_errors path (entries steps)

  abbrev pub deadline_errors : WorkflowSpec → FieldPath → ErrorList
  deadline_errors spec path = elim spec.active_deadline_seconds [
    | none ↦ []
    | some seconds ↦ rules.validate_nonnegative_field seconds (child path "activeDeadlineSeconds")
  ]

  abbrev pub selector_errors : WorkflowSpec → FieldPath → ErrorList
  selector_errors spec path = elim spec.jobs_selector [
    | none ↦ required (child path "jobsSelector") (message "") ∷ []
    | some selector ↦ rules.validate_label_selector selector (child path "jobsSelector")
  ]

  unfoldable pub validate_workflow_spec : WorkflowSpec → FieldPath → ErrorList
  validate_workflow_spec spec path =
      deadline_errors spec path
      ++ (selector_errors spec path ++ validate_workflow_steps spec.steps (child path "steps"))

  unfoldable pub validate_workflow : Workflow → ErrorList
  validate_workflow wf =
      rules.validate_object_meta wf.meta ("metadata" ∷ [])
      ++ validate_workflow_spec wf.spec ("spec" ∷ [])

-- `ValidateWorkflowStatus`.
unfoldable pub validate_workflow_status : WorkflowStatus → FieldPath → ErrorList
validate_workflow_status status path =
    if is_nil status.statuses
    then invalid (child path "statuses") none (message "statuses map may not be nil") ∷ []
    else []
