-- ===== src/Transitioner/Steps/Found.antt =====
-- What the job store had for a step, at a question of a run.
use kubernetes_workflow.Base.{
  ℕ, ◌≤◌, ◌<◌, String, List, [], ◌∷◌, some, In, ◌≡◌, ◌⊎◌, inl, inr, arith, All,
}
use kubernetes_workflow.GoMap.{GoMap}
use kubernetes_workflow.Api.Meta.{JobTemplateSpec, JobCondition, Job}
use kubernetes_workflow.Api.Types.{Workflow, WorkflowStepStatus}
use kubernetes_workflow.Api.Laws.{Completed}
use kubernetes_workflow.Job.{workflow_job_label_set}
use kubernetes_workflow.Job.Labels.{EndsJob}
use kubernetes_workflow.Cache.{list_jobs}
use kubernetes_workflow.World.{Cluster}
use kubernetes_workflow.Transitioner.Steps.{with_statuses, template_of}

-- The store, at one of the questions from `first` to before `last`, listed `jobs` for the labels that
-- the step `name` has with its own job template, in the workflow's namespace.
pub record Listing (cluster : Cluster) (wf : Workflow) (name : String) (first last : ℕ)
    (jobs : List Job) : Type 0 where
  pub own : JobTemplateSpec
  pub is_own : template_of wf name ≡ some own
  pub question : ℕ
  pub low : first ≤ question
  pub high : question < last
  pub found :
      list_jobs cluster wf.meta.namespace
        (workflow_job_label_set wf own name)
        (cluster.jobs question)
      ≡ jobs

-- The store listed one job for the step, and this job is finished: one of its conditions says that it
-- is complete or has failed.
abbrev pub Finished : Cluster → Workflow → ℕ → ℕ → String → Type 0
Finished cluster wf first last name =
    (job : Job) × ((c : JobCondition) × In c job.conditions × EndsJob c)
    × Listing cluster wf name first last (job ∷ [])

-- The step was complete in the workflow, or the store listed one job for it, a finished one.
abbrev pub Done : Cluster → Workflow → ℕ → ℕ → String → Type 0
Done cluster wf first last name =
    Completed wf.status.statuses name ⊎ Finished cluster wf first last name

module _ (cluster : Cluster) (wf : Workflow) (first last first' last' : ℕ) (low : first' ≤ first)
    (high : last ≤ last') where
  pub Listing-within :
      (name : String) (jobs : List Job)
      → Listing cluster wf name first last jobs
      → Listing cluster wf name first' last' jobs
  Listing-within name jobs h = record {
    own = h.own;
    is_own = h.is_own;
    question = h.question;
    low = omega (arith, h.low);
    high = omega (arith, h.high);
    found = h.found;
  }

  pub Done-within :
      (name : String) → Done cluster wf first last name → Done cluster wf first' last' name
  Done-within name (inl before) = inl before
  Done-within name (inr (job, finished, h)) = inr (job, finished, Listing-within name _ h)

  pub All-Done-within :
      (ds : List String)
      → All (Done cluster wf first last) ds
      → All (Done cluster wf first' last') ds
  All-Done-within [] h = tt
  All-Done-within (d ∷ ds) h = (Done-within d h.0, All-Done-within ds h.1)

-- The statuses do not matter for what is listed.
pub Listing-statuses :
    (cluster : Cluster) (wf : Workflow) (statuses : GoMap WorkflowStepStatus) (name : String)
    (first last : ℕ) (jobs : List Job)
    → Listing cluster (with_statuses statuses wf) name first last jobs
    → Listing cluster wf name first last jobs
unfolding workflow_job_label_set
Listing-statuses cluster wf statuses name first last jobs h = record {
  own = h.own;
  is_own = h.is_own;
  question = h.question;
  low = h.low;
  high = h.high;
  found = h.found;
}
