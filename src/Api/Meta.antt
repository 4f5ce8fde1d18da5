-- ===== src/Api/Meta.antt =====
-- The Kubernetes types that the program's resources are built from, with the fields that its code
-- names. A timestamp is a number of nanoseconds, and a pointer is an `Option`.
use kubernetes_workflow.Base.{ℕ, String, List, Option}
use kubernetes_workflow.GoMap.{GoMap}

pub record TypeMeta : Type 0 where
  pub kind : String
  pub api_version : String

pub record ObjectMeta : Type 0 where
  pub name : String
  pub generate_name : String
  pub namespace : String
  pub uid : String
  pub resource_version : String
  pub labels : GoMap String
  pub annotations : GoMap String

pub record LabelSelectorRequirement : Type 0 where
  pub key : String
  pub operator : String
  pub values : List String

pub record LabelSelector : Type 0 where
  pub match_labels : GoMap String
  pub match_expressions : List LabelSelectorRequirement

pub record ObjectReference : Type 0 where
  pub kind : String
  pub namespace : String
  pub name : String
  pub uid : String
  pub api_version : String
  pub resource_version : String

pub record Container : Type 0 where
  pub image : String
  pub name : String
  pub args : List String
  pub limits : GoMap String
  pub requests : GoMap String

pub record PodSpec : Type 0 where
  pub restart_policy : String
  pub containers : List Container

pub record PodTemplateSpec : Type 0 where
  pub meta : ObjectMeta
  pub spec : PodSpec

pub record JobSpec : Type 0 where
  pub parallelism : Option ℕ
  pub selector : Option LabelSelector
  pub template : PodTemplateSpec

pub record JobTemplateSpec : Type 0 where
  pub meta : ObjectMeta
  pub spec : JobSpec

pub record JobCondition : Type 0 where
  pub kind : String
  pub status : String

pub record Job : Type 0 where
  pub meta : ObjectMeta
  pub spec : JobSpec
  pub conditions : List JobCondition

pub record Pod : Type 0 where
  pub meta : ObjectMeta
  pub spec : PodSpec

-- The values of `k8sApi.ConditionStatus` and of `k8sBatch.JobConditionType` that the code names.
abbrev pub condition_true : String
condition_true = "True"

abbrev pub job_complete : String
job_complete = "Complete"

abbrev pub job_failed : String
job_failed = "Failed"

-- `k8sApi.NamespaceAll`.
abbrev pub namespace_all : String
namespace_all = ""
