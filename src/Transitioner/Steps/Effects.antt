-- ===== src/Transitioner/Steps/Effects.antt =====
-- What the processing of a step that is ready brings about.
use kubernetes_workflow.Base.{
  suc, String, List, [], ◌∷◌, true, false, Option, some, none, ◌≡◌, refl, ◌∙◌,
}
use kubernetes_workflow.GoMap.{made, get, insert}
use kubernetes_workflow.Api.Meta.{ObjectReference, JobTemplateSpec, Job}
use kubernetes_workflow.Api.Types.{Workflow, WorkflowStep, WorkflowStepStatus}
use kubernetes_workflow.Api.Methods.{dependencies_resolved, step_complete}
use kubernetes_workflow.Job.{workflow_job_label_set, is_job_finished}
use kubernetes_workflow.Cache.{list_jobs}
use kubernetes_workflow.World.{Cluster, World, ok}
use kubernetes_workflow.Transitioner.State.{share_statuses}
use kubernetes_workflow.Transitioner.Steps.{
  update_step_status, reconcile, process_job_step, process_step, with_statuses, template_of,
  is_current,
}
use kubernetes_workflow.Transitioner.Steps.Round.{process_step_job}

stale :
    (held : Option WorkflowStepStatus)
    → (elim held [ none ↦ false | some st ↦ st.complete ]) ≡ false
    → is_current held true ≡ false
stale none h = refl
stale (some st) h = h

module _ (cluster : Cluster) (key : String) (wf : Workflow) (name : String) (step : WorkflowStep)
    (template : JobTemplateSpec) (w : World) (kind : step.job_template ≡ some template)
    (resolved : dependencies_resolved step wf ≡ true)
    (own : template_of wf name ≡ some template) where
  abbrev labels : List (String × String)
  labels = workflow_job_label_set wf template name

  -- The jobs of the step in the store.
  abbrev pub jobs_found : List Job
  jobs_found = list_jobs cluster wf.meta.namespace labels (cluster.jobs w.asked)

  -- The world after the question for the jobs.
  abbrev looked : World
  looked = record w { asked = suc w.asked }

  process_step-reconcile :
      process_step cluster key wf name step w
      ≡ reconcile cluster key wf name template jobs_found looked
  unfolding process_job_step
  process_step-reconcile =
      process_step_job cluster key wf name step template w kind ∙ simp (resolved, own)

  module _ (job : Job) (found_one : jobs_found ≡ job ∷ []) where
    -- Where the store has one job of a ready step, and the job is finished, the step becomes complete,
    -- with a reference to the job: where a reference can be made and the step has no status that says
    -- so already. The map of statuses has to be made.
    pub process_step_completes :
        (ref : ObjectReference) (statuses : List (String × WorkflowStepStatus))
        → cluster.job_reference job ≡ some ref
        → is_job_finished job ≡ true
        → step_complete wf.status.statuses name ≡ false
        → wf.status.statuses ≡ made statuses
        → process_step cluster key wf name step w ≡ (
          ok (
            with_statuses
                (made (insert name (record { complete = true; reference = ref }) statuses))
                wf,
            true,
          ),
          (share_statuses key
              (with_statuses
                (made (insert name (record { complete = true; reference = ref }) statuses))
                wf)
              looked).1,
        )
    unfolding reconcile update_step_status share_statuses step_complete
    process_step_completes ref statuses r finished incomplete was =
        process_step-reconcile
        ∙ rw (found_one, reconcile)
            (rw (r, update_step_status)
              (simp finished (simp (stale (get name wf.status.statuses) incomplete) (simp was))))
