-- ===== src/Manager/Laws.antt =====
-- Which workflows an event enqueues, and what the creation of a job settles.
use kubernetes_workflow.Base.{
  ℕ, String, List, [], ◌∷◌, Bool, true, Option, some, none, ◌≡◌, ◌⊎◌, refl, ◌∙◌, ap, arith, In, inl,
  inr, eq_refl, if_ind, Bool-cases,
}
use kubernetes_workflow.GoMap.{made, entries}
use kubernetes_workflow.Api.Meta.{Job, JobTemplateSpec}
use kubernetes_workflow.Api.Types.{Workflow}
use kubernetes_workflow.Expectations.{Expectations, creation_observed, expectations_satisfied}
use kubernetes_workflow.Expectations.Laws.{satisfied-creation_observed}
use kubernetes_workflow.Job.Labels.{label_or_empty, step_of_labels}
use kubernetes_workflow.Job.{workflow_step_label_key, workflow_job_label_set}
use kubernetes_workflow.Cache.{
  Found, is_empty, found_or_error, map_result, workflows_matching, job_workflows,
}
use kubernetes_workflow.Cache.Laws.{Manages, workflows_matching_iff}
use kubernetes_workflow.World.{Cluster, Result, ok, panicked}
use kubernetes_workflow.Manager.{
  Handled, enqueue_workflow, first_found, job_workflow, observe, add_job, enqueue_job_workflow,
  update_job,
}

module _ (cluster : Cluster) where
  first_matching :
      (r : Result (List Workflow)) (wf : Workflow)
      → first_found cluster (map_result found_or_error r) ≡ ok (some wf)
      → (rest : List Workflow) × (r ≡ ok (wf ∷ rest))
  first_matching panicked wf e = cc
  first_matching (ok []) wf e = cc
  first_matching (ok (x ∷ l)) wf e = (l, ground arith)

  -- The workflow that is found for a job is one of the store that manages the job.
  pub job_workflow-Manages :
      (job : Job) (store : List Workflow) (wf : Workflow)
      → job_workflow cluster job store ≡ ok (some wf)
      → In wf store × Manages cluster job wf
  unfolding job_workflow job_workflows
  job_workflow-Manages job store wf e =
      if_ind
        (λ (r : Result (Found Workflow)).
          first_found cluster r ≡ ok (some wf) → In wf store × Manages cluster job wf)
        (is_empty (entries job.meta.labels)) (λ unlabelled none_e. cc)
        (λ labelled some_e.
          let (rest, eq) = first_matching (workflows_matching cluster job store) wf some_e in
          (workflows_matching_iff cluster job store (wf ∷ rest) wf eq).0 (inl refl))
        e

  enqueued-key :
      (wf : Workflow) (key : String)
      → cluster.key_func wf.meta ≡ some key
      → enqueue_workflow cluster wf ≡ key ∷ []
  unfolding enqueue_workflow
  enqueued-key wf key keyed = rw (keyed, enqueue_workflow) refl

  observe-eq :
      (job : Job) (wf : Workflow) (expectations : Expectations) (name key : String)
      → label_or_empty workflow_step_label_key job.meta.labels ≡ name
      → cluster.key_func wf.meta ≡ some key
      → observe cluster job wf expectations
        ≡ record { expectations = (creation_observed key name expectations).1; added = key ∷ [] }
  unfolding observe
  observe-eq job wf expectations name key step keyed =
      let enqueued = enqueued-key wf key keyed in rw (keyed, observe) (simp (step, enqueued))

  observe-settles :
      (job : Job) (wf : Workflow) (expectations : Expectations) (name key : String) (now : ℕ)
      → label_or_empty workflow_step_label_key job.meta.labels ≡ name
      → cluster.key_func wf.meta ≡ some key
      → ((observe cluster job wf expectations).added ≡ key ∷ [])
        × (expectations_satisfied now key name (observe cluster job wf expectations).expectations
            ≡ true)
  observe-settles job wf expectations name key now step keyed =
      let seen = observe-eq job wf expectations name key step keyed in
      (
        ap (λ (h : Handled). h.added) seen,
        ap (λ (h : Handled). expectations_satisfied now key name h.expectations) seen
            ∙ (satisfied-creation_observed now key name key name expectations ∙ simp eq_refl),
      )

  -- Once the informer has seen a job with the labels of a step's job, the step's expectations are
  -- settled, and the workflow found for the job is enqueued once.
  pub add_job-settles :
      (job : Job) (store : List Workflow) (expectations : Expectations) (wf : Workflow)
      (template : JobTemplateSpec) (name key : String) (now : ℕ)
      → job_workflow cluster job store ≡ ok (some wf)
      → job.meta.labels ≡ made (workflow_job_label_set wf template name)
      → cluster.key_func wf.meta ≡ some key
      → (h : Handled) × (add_job cluster job store expectations ≡ ok h)
        × (h.added ≡ key ∷ [])
        × (expectations_satisfied now key name h.expectations ≡ true)
  unfolding add_job
  add_job-settles job store expectations wf template name key now seen labelled keyed =
      let (added, settled) =
        observe-settles job wf expectations name key now
          (step_of_labels job.meta.labels wf template name labelled) keyed in
      (observe cluster job wf expectations, rw (seen, add_job) refl, added, settled)

  enqueued_or_not :
      (job : Job) (store : List Workflow) (added : List String) (r : Result (Option Workflow))
      → job_workflow cluster job store ≡ r
      → enqueue_job_workflow cluster job store ≡ ok added
      → (added ≡ [])
        ⊎ ((wf : Workflow) × In wf store
            × Manages cluster job wf
            × (added ≡ enqueue_workflow cluster wf))
  unfolding enqueue_job_workflow
  enqueued_or_not job store added panicked r e = cc (rw (r, enqueue_job_workflow) at e)
  enqueued_or_not job store added (ok none) r e =
      inl (ground (arith, rw (r, enqueue_job_workflow) at e))
  enqueued_or_not job store added (ok (some wf)) r e =
      let (there, manages) = job_workflow-Manages job store wf r in
      inr (wf, there, manages, ground (arith, rw (r, enqueue_job_workflow) at e))

  -- What an event of a changed job adds to the queue: nothing, or the key of a workflow of the store
  -- that manages the job as it is now.
  pub update_job-Manages :
      (deep_equal : Job → Job → Bool) (old cur : Job) (store : List Workflow) (added : List String)
      → update_job cluster deep_equal old cur store ≡ ok added
      → (added ≡ [])
        ⊎ ((wf : Workflow) × In wf store
            × Manages cluster cur wf
            × (added ≡ enqueue_workflow cluster wf))
  unfolding update_job
  update_job-Manages deep_equal old cur store added e = elim (Bool-cases (deep_equal old cur)) [
    | inl same ↦ inl (ground (arith, rw (same, update_job) at e))
    | inr changed ↦
        enqueued_or_not cur store added (job_workflow cluster cur store) refl
          (rw (changed, update_job) at e)
  ]
