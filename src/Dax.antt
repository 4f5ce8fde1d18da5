-- ===== src/Dax.antt =====
-- dax-to-json/utils.go, dax-to-json/types.go and dax-to-json/main.go: the converter of a DAX graph to a
-- workflow. Reading XML and printing JSON are left out.
pub mod Laws
pub mod Valid
use kubernetes_workflow.Base.{
  ℕ, suc, ◌*◌, ◌<>◌, String, List, [], ◌∷◌, Bool, true, false, Option, some, none, if◌then◌else◌,
}
use kubernetes_workflow.Base.Int.{ℤ, pos}
use kubernetes_workflow.GoMap.{GoMap, Entries, nil_map, made, lookup, insert}
use kubernetes_workflow.Api.Meta.{
  TypeMeta, ObjectMeta, Container, PodSpec, PodTemplateSpec, JobSpec, JobTemplateSpec,
}
use kubernetes_workflow.Api.Types.{group, WorkflowStep, Workflow}

-- `Child`: a step, by its reference, and the references of its parents.
pub record Child : Type 0 where
  pub ref : String
  pub parents : List String

-- `Adag`: the identifiers of the jobs, and the children. `mapJobsToDependencies` makes `ChildMap`.
pub record Adag : Type 0 where
  pub jobs : List String
  pub childs : List Child

-- The metadata of an object of which only the name is set.
abbrev pub named : String → ObjectMeta
named name = record {
  name = name;
  generate_name = "";
  namespace = "";
  uid = "";
  resource_version = "";
  labels = nil_map;
  annotations = nil_map;
}

-- `newWorkflow`.
abbrev pub new_workflow : String → Workflow
new_workflow name = record {
  type_meta = record { kind = "Workflow"; api_version = group <> "/v1alpha1" };
  meta = named name;
  spec = record {
    meta = named "";
    active_deadline_seconds = some (pos 3600);
    steps = made [];
    jobs_selector = none;
  };
  status = record {
    conditions = [];
    start_time = none;
    completion_time = none;
    statuses = nil_map;
  };
}

-- What the converter takes from libraries: `strings.ToLower`, `strconv.Itoa`, the name of the resource
-- for processors, and the random loads by the number of the call.
pub record Tools : Type 0 where
  pub to_lower : String → String
  pub itoa : ℕ → String
  pub resource_cpu : String
  pub load : ℕ → ℕ

module _ (tools : Tools) where
  -- The annotations of the pod.
  abbrev pub scheduling_annotations : Bool → GoMap String
  scheduling_annotations true = made (("scheduler.alpha.kubernetes.io/name", "heat-scheduler") ∷ [])
  scheduling_annotations false = nil_map

  -- `newStep`, for the random load. A quantity is the text that it is parsed from.
  unfoldable pub new_step : ℕ → String → List String → Bool → WorkflowStep
  new_step load id dependencies scheduling =
      let name = tools.to_lower id in
      let cpu = made ((tools.resource_cpu, tools.itoa (load * 10) <> "m") ∷ []) in
      record {
        dependencies = dependencies;
        external_ref = none;
        job_template = some (record {
          meta = named name;
          spec = record {
            parallelism = some 1;
            selector = none;
            template = record {
              meta = record (named (name <> "-pod")) {
                annotations = scheduling_annotations scheduling;
              };
              spec = record {
                restart_policy = "OnFailure";
                containers =
                    (record {
                      image = "lorel/docker-stress-ng";
                      name = name <> "-container";
                      args = "--cpu" ∷ "1" ∷ "--cpu-load" ∷ tools.itoa load ∷ "-t" ∷ "30" ∷ [];
                      limits = cpu;
                      requests = cpu;
                    })
                    ∷ [];
              };
            };
          };
        });
      }

  -- The loop over the parents of a child.
  unfoldable pub lower_all : List String → List String
  lower_all [] = []
  lower_all (ref ∷ refs) = tools.to_lower ref ∷ lower_all refs

  -- `mapJobsToDependencies`: the entries of `ChildMap`.
  unfoldable pub child_map : List Child → Entries (List String) → Entries (List String)
  child_map [] m = m
  child_map (child ∷ childs) m = child_map childs (insert child.ref (lower_all child.parents) m)

  -- A missing key of `ChildMap` reads as no dependencies.
  abbrev pub dependencies_of : String → Entries (List String) → List String
  dependencies_of id m = elim (lookup id m) [ none ↦ [] | some refs ↦ refs ]

  -- The loop of `main` over the jobs, from the call `i` of the random numbers on.
  unfoldable pub add_steps :
      ℕ → Bool → Entries (List String) → List String → Entries WorkflowStep → Entries WorkflowStep
  add_steps i scheduling m [] steps = steps
  add_steps i scheduling m (id ∷ ids) steps = add_steps (suc i) scheduling m ids (
      insert (tools.to_lower id) (new_step (tools.load i) id (dependencies_of id m) scheduling)
        steps)

  -- The workflow that `main` prints.
  unfoldable pub convert : Adag → Bool → String → Workflow
  convert adag scheduling name =
      let wf = new_workflow name in
      record wf {
        spec = record (wf.spec) {
          steps = made (add_steps 0 scheduling (child_map adag.childs []) adag.jobs []);
        };
      }

-- What a run of the converter prints: the usage, an error of the file or of its XML, an error of the
-- encoder, or the workflow.
pub data Printed : Type 0 where
  usage parse_error encode_error : Printed
  workflow_text : String → Printed

-- What `main` takes from libraries: `os.Open`, `ioutil.ReadAll` and `xml.Unmarshal`, and
-- `json.Marshal`; an error is `none`.
pub record Files : Type 0 where
  pub open_file : String → Option String
  pub read_all : String → Option String
  pub decode_xml : String → Option Adag
  pub encode_json : Workflow → Option String

abbrev pub default_workflow_name : String
default_workflow_name = "test-workflow"

-- `getWorkflowName`, for the arguments that are no flags: the second of exactly two.
unfoldable pub get_workflow_name : List String → String
get_workflow_name [] = default_workflow_name
get_workflow_name (file ∷ []) = default_workflow_name
get_workflow_name (file ∷ name ∷ []) = name
get_workflow_name (file ∷ name ∷ other ∷ more) = default_workflow_name

-- `parseDax`.
unfoldable pub parse_dax : Files → String → Option Adag
parse_dax files filename = elim (files.open_file filename) [
  | none ↦ none
  | some file ↦ elim (files.read_all file) [
    | none ↦ none
    | some contents ↦ files.decode_xml contents
  ]
]

-- `printWorkflow`.
unfoldable pub print_workflow : Files → Workflow → Printed
print_workflow files wf = elim (files.encode_json wf) [
  | none ↦ encode_error
  | some text ↦ workflow_text text
]

-- `main`, for the flag and the other arguments.
unfoldable pub main : Tools → Files → Bool → List String → Printed
main tools files scheduling [] = usage
main tools files scheduling (filename ∷ args) = elim (parse_dax files filename) [
  | none ↦ parse_error
  | some adag ↦
      print_workflow files (convert tools adag scheduling (get_workflow_name (filename ∷ args)))
]
