-- ===== src/Api/Types.antt =====
-- pkg/api/types.go and constants.go: the workflow resource.
use kubernetes_workflow.Base.{ℕ, String, List, Option, Bool}
use kubernetes_workflow.Base.Int.{ℤ}
use kubernetes_workflow.GoMap.{GoMap}
use kubernetes_workflow.Api.Meta.{
  TypeMeta, ObjectMeta, LabelSelector, ObjectReference, JobTemplateSpec,
}

abbrev pub group : String
group = "nerdalize.com"

-- `Group + "/workflow-uid"`.
abbrev pub workflow_uid_label : String
workflow_uid_label = "nerdalize.com/workflow-uid"

abbrev pub workflow_complete : String
workflow_complete = "Complete"

abbrev pub workflow_failed : String
workflow_failed = "Failed"

pub record WorkflowStep : Type 0 where
  pub job_template : Option JobTemplateSpec
  pub external_ref : Option ObjectReference
  pub dependencies : List String

pub record WorkflowSpec : Type 0 where
  pub meta : ObjectMeta
  pub active_deadline_seconds : Option ℤ
  pub steps : GoMap WorkflowStep
  pub jobs_selector : Option LabelSelector

pub record WorkflowCondition : Type 0 where
  pub kind : String
  pub status : String
  pub last_probe_time : ℕ
  pub last_transition_time : ℕ
  pub reason : String
  pub message : String

pub record WorkflowStepStatus : Type 0 where
  pub complete : Bool
  pub reference : ObjectReference

pub record WorkflowStatus : Type 0 where
  pub conditions : List WorkflowCondition
  pub start_time : Option ℕ
  pub completion_time : Option ℕ
  pub statuses : GoMap WorkflowStepStatus

pub record Workflow : Type 0 where
  pub type_meta : TypeMeta
  pub meta : ObjectMeta
  pub spec : WorkflowSpec
  pub status : WorkflowStatus

pub record WorkflowList : Type 0 where
  pub type_meta : TypeMeta
  pub items : List Workflow
