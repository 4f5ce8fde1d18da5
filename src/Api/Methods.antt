-- ===== src/Api/Methods.antt =====
-- pkg/api/types.go: the methods of a workflow and of a step. `none` is a panic: a write to a nil map.
use kubernetes_workflow.Base.{
  ℕ, String, List, [], ◌∷◌, ◌++◌, Option, none, some, Bool, true, false, ◌&&◌, ◌||◌, not, ◌==◌,
  if◌then◌else◌,
}
use kubernetes_workflow.GoMap.{GoMap, nil_map, made, get, assign, insert_all}
use kubernetes_workflow.Api.Meta.{TypeMeta, LabelSelector, condition_true}
use kubernetes_workflow.Api.Types.{
  Workflow, WorkflowStep, WorkflowCondition, WorkflowStepStatus, workflow_uid_label,
  workflow_complete, workflow_failed, group,
}

-- The labels after `setLabels`: a nil map is made first.
unfoldable pub add_labels : List (String × String) → GoMap String → GoMap String
add_labels labels nil_map = made (insert_all labels [])
add_labels labels (made old) = made (insert_all labels old)

unfoldable pub set_labels : List (String × String) → Workflow → Workflow
unfolding add_labels insert_all
set_labels labels wf = record wf {
  meta = record (wf.meta) { labels = add_labels labels wf.meta.labels };
}

-- `if wf.Spec.JobsSelector == nil { … }`: a missing selector is made with an empty map of labels.
abbrev pub selector_or_new : Option LabelSelector → LabelSelector
selector_or_new none = record { match_labels = made []; match_expressions = [] }
selector_or_new (some s) = s

-- `SetUID`.
unfoldable pub set_uid : Workflow → Option Workflow
unfolding set_labels
set_uid wf =
    let sel = selector_or_new wf.spec.jobs_selector in
    let labelled = set_labels ((workflow_uid_label, wf.meta.uid) ∷ []) wf in
    elim (assign workflow_uid_label wf.meta.uid sel.match_labels) [
      | none ↦ none
      | some ls ↦ some (record labelled {
        spec = record (wf.spec) { jobs_selector = some (record sel { match_labels = ls }) };
      })
    ]

-- `SetDefaults`, at the time `now`.
unfoldable pub set_defaults : ℕ → Workflow → Option Workflow
unfolding set_uid
set_defaults now wf =
    set_uid
      (record wf { status = record (wf.status) { statuses = made []; start_time = some now } })

-- `AddCompleteCondition`, at the time `now`.
unfoldable pub add_complete_condition : ℕ → Workflow → Workflow
add_complete_condition now wf =
    let condition : WorkflowCondition = record {
      kind = workflow_complete;
      status = condition_true;
      last_probe_time = now;
      last_transition_time = now;
      reason = "";
      message = "";
    } in
    record wf {
      status = record (wf.status) {
        conditions = wf.status.conditions ++ condition ∷ [];
        completion_time = some now;
      };
    }

-- The loop of `IsFinished`.
unfoldable pub any_finished : List WorkflowCondition → Bool
any_finished [] = false
any_finished (c ∷ cs) =
    if (c.kind == workflow_complete || c.kind == workflow_failed) && c.status == condition_true
    then true
    else any_finished cs

unfoldable pub is_finished : Workflow → Bool
unfolding any_finished
is_finished wf = any_finished wf.status.conditions

-- `stepStatus, ok := statuses[name]; ok && stepStatus.Complete`.
unfoldable pub step_complete : GoMap WorkflowStepStatus → String → Bool
step_complete statuses name = elim (get name statuses) [ none ↦ false | some st ↦ st.complete ]

-- The loop of `DependenciesResolved`.
unfoldable pub all_complete : GoMap WorkflowStepStatus → List String → Bool
unfolding step_complete
all_complete statuses [] = true
all_complete statuses (d ∷ ds) =
    if not (step_complete statuses d) then false else all_complete statuses ds

unfoldable pub dependencies_resolved : WorkflowStep → Workflow → Bool
unfolding all_complete
dependencies_resolved s wf = all_complete wf.status.statuses s.dependencies

abbrev pub workflow_kind : String
workflow_kind = "Workflow"

abbrev pub workflow_version : String
workflow_version = "v1alpha1"

-- `GetObjectKind` of a workflow, for `path.Join`.
unfoldable pub workflow_object_kind : (List String → String) → TypeMeta
workflow_object_kind join = record {
  kind = workflow_kind;
  api_version = join (group ∷ workflow_version ∷ []);
}

-- `GetObjectKind` of a list of workflows.
unfoldable pub workflow_list_object_kind : (List String → String) → TypeMeta
workflow_list_object_kind join = record {
  kind = workflow_kind;
  api_version = join (group ∷ workflow_version ∷ []);
}
