-- ===== src/Validation/Field.antt =====
-- The errors that pkg/validation/validation.go builds by k8s.io's package `field`. A field path is
-- the list of its names.
use kubernetes_workflow.Base.{String, List, Option, Bool}
use kubernetes_workflow.Base.Int.{ℤ}
use kubernetes_workflow.Api.Meta.{ObjectMeta, LabelSelector}
use kubernetes_workflow.Api.Types.{WorkflowStep}

abbrev pub FieldPath : Type 0
FieldPath = List String

-- A message, or the one that shows a cycle.
pub data Detail : Type 0 where
  message : String → Detail
  detected_cycle : List String → Detail
  about_step : String → String → Detail

pub data FieldError : Type 0 where
  required : FieldPath → Detail → FieldError
  not_found : FieldPath → String → FieldError
  invalid : FieldPath → Option String → Detail → FieldError
  forbidden : FieldPath → Detail → FieldError

abbrev pub ErrorList : Type 0
ErrorList = List FieldError

-- The functions of Kubernetes and of Go that the validation calls.
pub record Rules : Type 0 where
  -- `ValidateObjectMeta(meta, true, NameIsDNSSubdomain, path)`.
  pub validate_object_meta : ObjectMeta → FieldPath → ErrorList
  pub validate_object_meta_update : ObjectMeta → ObjectMeta → FieldPath → ErrorList
  pub validate_nonnegative_field : ℤ → FieldPath → ErrorList
  pub validate_label_selector : LabelSelector → FieldPath → ErrorList
  pub validate_immutable_field : Option LabelSelector → Option LabelSelector → FieldPath → ErrorList
  -- `Semantic.DeepEqual` on steps.
  pub deep_equal : WorkflowStep → WorkflowStep → Bool
  -- `sort.Strings`, and the order in which a string set is listed.
  pub sort_strings : List String → List String
