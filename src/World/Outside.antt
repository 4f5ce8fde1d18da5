-- ===== src/World/Outside.antt =====
-- The outside of the controller. What may change between two questions is indexed by the number of
-- the question: the same question may be answered otherwise the next time.
use kubernetes_workflow.Base.{ℕ, String, List, Option, Bool}
use kubernetes_workflow.GoMap.{GoMap}
use kubernetes_workflow.Api.Meta.{ObjectMeta, LabelSelector, ObjectReference, JobSpec, Job}
use kubernetes_workflow.Api.Types.{Workflow}
use kubernetes_workflow.Validation.Field.{Rules}

-- The answers to `Workflows(ns).Update`: no error, a `StatusError`, another error.
pub data UpdateAnswer : Type 0 where
  updated status_error other_error : UpdateAnswer

-- The answers to `Workflows(ns).Get`, as far as they are used: an error, the resource version of the
-- workflow, or a nil workflow without an error.
pub data VersionAnswer : Type 0 where
  not_brought brought_nil : VersionAnswer
  brought : String → VersionAnswer

pub record Cluster : Type 0 where
  pub rules : Rules
  -- `NameIsDNSSubdomain(prefix, true)` has no complaint.
  pub is_dns_prefix : String → Bool
  pub created_by_annotation : String
  -- `none` is an error of the function.
  pub workflow_reference : Workflow → Option ObjectReference
  pub job_reference : Job → Option ObjectReference
  pub encode_reference : ObjectReference → Option String
  pub object_meta_for : Workflow → Option ObjectMeta
  pub convert_spec : JobSpec → Option JobSpec
  pub key_func : ObjectMeta → Option String
  -- `SelectorFromSet(set).Matches(labels)`.
  pub set_matches : List (String × String) → GoMap String → Bool
  -- `LabelSelectorAsSelector(selector)` and `Matches(labels)`; `none` is an error of the first.
  pub selector_matches : Option LabelSelector → GoMap String → Option Bool
  -- The informer's job store, whether it has synced, and the clock.
  pub jobs : ℕ → List Job
  pub synced : ℕ → Bool
  pub now : ℕ → ℕ
  -- The API server: whether a job is created, how an update ends, and the resource version that a
  -- `Get` by namespace and name brings.
  pub accepts_job : ℕ → String → Job → Bool
  pub update : ℕ → Workflow → UpdateAnswer
  pub get_version : ℕ → String → String → VersionAnswer
