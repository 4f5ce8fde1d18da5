-- ===== src/Samples.antt =====
-- Small workflows, jobs and a small outside, on which the theorems are tried.
use kubernetes_workflow.Base.{
  ℕ, ◌*◌, String, List, [], ◌∷◌, Bool, true, false, ◌&&◌, some, none, ◌==◌,
}
use kubernetes_workflow.GoMap.{GoMap, nil_map, made, entries, get}
use kubernetes_workflow.Api.Meta.{
  ObjectMeta, LabelSelector, ObjectReference, PodTemplateSpec, JobSpec, JobTemplateSpec,
  JobCondition, Job,
}
use kubernetes_workflow.Api.Types.{WorkflowStep, WorkflowStepStatus, Workflow}
use kubernetes_workflow.Validation.Field.{Rules}
use kubernetes_workflow.Validation.Sort.Correct.{KeepsElements}
use kubernetes_workflow.World.{Cluster, UpdateAnswer, brought, World}

abbrev pub sample_meta : String → GoMap String → ObjectMeta
sample_meta name labels = record {
  name = name;
  generate_name = "";
  namespace = "ns";
  uid = "u1";
  resource_version = "1";
  labels = labels;
  annotations = nil_map;
}

abbrev pub sample_pod_template : PodTemplateSpec
sample_pod_template = record {
  meta = sample_meta "pod" nil_map;
  spec = record { restart_policy = "Never"; containers = [] };
}

abbrev pub sample_job_spec : JobSpec
sample_job_spec = record { parallelism = some 1; selector = none; template = sample_pod_template }

abbrev pub sample_template : JobTemplateSpec
sample_template = record {
  meta = sample_meta "job" (made (("app", "x") ∷ []));
  spec = sample_job_spec;
}

abbrev pub job_step : List String → WorkflowStep
job_step dependencies = record {
  job_template = some sample_template;
  external_ref = none;
  dependencies = dependencies;
}

-- `b` depends on `a`.
abbrev pub chain : List (String × WorkflowStep)
chain = ("b", job_step ("a" ∷ [])) ∷ ("a", job_step []) ∷ []

-- `a` and `b` depend on one another.
abbrev pub ring : List (String × WorkflowStep)
ring = ("a", job_step ("b" ∷ [])) ∷ ("b", job_step ("a" ∷ [])) ∷ []

abbrev pub sample_reference : ObjectReference
sample_reference = record {
  kind = "Job";
  namespace = "ns";
  name = "job-1";
  uid = "u2";
  api_version = "batch/v1";
  resource_version = "1";
}

abbrev pub status_of : Bool → WorkflowStepStatus
status_of complete = record { complete = complete; reference = sample_reference }

abbrev pub sample_selector : LabelSelector
sample_selector = record { match_labels = made []; match_expressions = [] }

abbrev pub sample_workflow :
    GoMap String → List (String × WorkflowStep) → GoMap WorkflowStepStatus → Workflow
sample_workflow labels steps statuses = record {
  type_meta = record { kind = "Workflow"; api_version = "nerdalize.com/v1alpha1" };
  meta = sample_meta "wf" labels;
  spec = record {
    meta = sample_meta "" nil_map;
    active_deadline_seconds = none;
    steps = made steps;
    jobs_selector = some sample_selector;
  };
  status = record {
    conditions = [];
    start_time = none;
    completion_time = none;
    statuses = statuses;
  };
}

abbrev pub uid_labels : GoMap String
uid_labels = made (("nerdalize.com/workflow-uid", "u1") ∷ [])

-- A workflow with its UID label and no statuses yet.
abbrev pub fresh_workflow : Workflow
fresh_workflow = sample_workflow uid_labels chain (made [])

abbrev pub sample_job : GoMap String → List JobCondition → Job
sample_job labels conditions = record {
  meta = sample_meta "job-1" labels;
  spec = sample_job_spec;
  conditions = conditions;
}

abbrev pub complete_condition : JobCondition
complete_condition = record { kind = "Complete"; status = "True" }

-- The entries of a set of labels are all among the labels.
abbrev pub within : List (String × String) → GoMap String → Bool
within [] labels = true
within ((k, v) ∷ set) labels =
    elim (get k labels) [ none ↦ false | some x ↦ x == v ] && within set labels

abbrev pub same_texts : List String → List String → Bool
same_texts [] [] = true
same_texts (x ∷ xs) (y ∷ ys) = x == y && same_texts xs ys
same_texts xs ys = false

abbrev pub as_given : List String → List String
as_given xs = xs

pub keeps_given : KeepsElements as_given
keeps_given xs x = (λ m. m, λ m. m)

abbrev pub sample_rules : Rules
sample_rules = record {
  validate_object_meta = λ meta path. [];
  validate_object_meta_update = λ meta old path. [];
  validate_nonnegative_field = λ seconds path. [];
  validate_label_selector = λ selector path. [];
  validate_immutable_field = λ selector old path. [];
  deep_equal = λ a b. same_texts a.dependencies b.dependencies;
  sort_strings = as_given;
}

-- An outside with these jobs in the store, whose server answers updates so, by the question.
abbrev pub sample_cluster : List Job → (ℕ → UpdateAnswer) → Cluster
sample_cluster jobs update = record {
  rules = sample_rules;
  is_dns_prefix = λ prefix. true;
  created_by_annotation = "kubernetes.io/created-by";
  workflow_reference = λ wf. some sample_reference;
  job_reference = λ job. some sample_reference;
  encode_reference = λ ref. some "{}";
  object_meta_for = λ wf. some wf.meta;
  convert_spec = λ spec. some spec;
  key_func = λ meta. some meta.name;
  set_matches = within;
  selector_matches = λ selector labels. elim selector [
    | none ↦ some false
    | some s ↦ some (within (entries s.match_labels) labels)
  ];
  jobs = λ i. jobs;
  synced = λ i. true;
  now = λ i. i * 1000;
  accepts_job = λ i namespace job. true;
  update = λ i wf. update i;
  get_version = λ i namespace name. brought "2";
}

abbrev pub sample_world : Workflow → World
sample_world wf = record {
  asked = 0;
  store = ("wf", wf) ∷ [];
  expectations = [];
  created = [];
  updates = [];
  events = [];
}
