-- ===== src/Transitioner/Steps/Jobs.antt =====
-- Why a job is created for a step, and the jobs created since the loop of `processSteps` began.
use kubernetes_workflow.Base.{ℕ, ◌≤◌, String, List, [], ◌∷◌, ◌++◌, true, false, some, ◌≡◌, In, All}
use kubernetes_workflow.GoMap.{GoMap, made, entries}
use kubernetes_workflow.Api.Meta.{JobTemplateSpec, Job}
use kubernetes_workflow.Api.Types.{Workflow, WorkflowStep, WorkflowStepStatus}
use kubernetes_workflow.Api.Methods.{step_complete}
use kubernetes_workflow.Api.Laws.{Completed, step_complete_iff}
use kubernetes_workflow.Job.{workflow_job_label_set}
use kubernetes_workflow.World.{Cluster, World}
use kubernetes_workflow.Transitioner.Steps.Found.{Listing, Listing-within, Done, All-Done-within}

-- The statuses `new` keep every completed step of `old` complete.
abbrev pub KeepsComplete : GoMap WorkflowStepStatus → GoMap WorkflowStepStatus → Type 0
KeepsComplete old new = (n : String) → step_complete old n ≡ true → step_complete new n ≡ true

pub Completed-kept :
    (old new : GoMap WorkflowStepStatus) (ds : List String)
    → KeepsComplete old new
    → All (Completed old) ds
    → All (Completed new) ds
Completed-kept old new [] k h = tt
Completed-kept old new (d ∷ ds) k h = (
  (step_complete_iff new d).0 (k d ((step_complete_iff old d).1 h.0)),
  Completed-kept old new ds k h.1,
)

-- A job created for a step of `wf` with a job template, in the workflow's namespace and with the
-- step's labels: the step was not complete; each of its dependencies was, or the store listed one job
-- for it, a finished one; and the store listed no job for the step itself. What the store listed, it
-- listed at a question from `first` to before `last`.
pub record Justified (cluster : Cluster) (wf : Workflow) (first last : ℕ) (entry : String × Job)
    : Type 0 where
  pub name : String
  pub step : WorkflowStep
  pub template : JobTemplateSpec
  pub listed : In (name, step) (entries wf.spec.steps)
  pub kind : step.job_template ≡ some template
  pub incomplete : step_complete wf.status.statuses name ≡ false
  pub namespaced : entry.0 ≡ wf.meta.namespace
  pub labelled : entry.1.meta.labels ≡ made (workflow_job_label_set wf template name)
  pub resolved : All (Done cluster wf first last) step.dependencies
  pub unmatched : Listing cluster wf name first last []

pub Justified-within :
    (cluster : Cluster) (wf : Workflow) (first last first' last' : ℕ)
    → first' ≤ first
    → last ≤ last'
    → (jobs : List (String × Job)) → All (Justified cluster wf first last) jobs
    → All (Justified cluster wf first' last') jobs
Justified-within cluster wf first last first' last' low high [] h = tt
Justified-within cluster wf first last first' last' low high (j ∷ jobs) h = (
  record {
    name = h.0.name;
    step = h.0.step;
    template = h.0.template;
    listed = h.0.listed;
    kind = h.0.kind;
    incomplete = h.0.incomplete;
    namespaced = h.0.namespaced;
    labelled = h.0.labelled;
    resolved =
        All-Done-within cluster wf first last first' last' low high h.0.step.dependencies
          h.0.resolved;
    unmatched =
        Listing-within cluster wf first last first' last' low high h.0.name [] h.0.unmatched;
  },
  Justified-within cluster wf first last first' last' low high jobs h.1,
)

-- The jobs created since `w`, each justified by what the store listed since; nothing was sent.
pub record JobsSince (cluster : Cluster) (wf : Workflow) (w w' : World) : Type 0 where
  pub jobs : List (String × Job)
  pub added : w'.created ≡ jobs ++ w.created
  pub justified : All (Justified cluster wf w.asked w'.asked) jobs
  pub quiet : w'.updates ≡ w.updates
  pub later : w.asked ≤ w'.asked
