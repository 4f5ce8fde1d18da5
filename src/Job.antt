-- ===== src/Job.antt =====
-- pkg/job/control.go: the jobs of a workflow's steps.
pub mod Labels
pub mod Fake
use kubernetes_workflow.Base.{
  ℕ, String, List, [], ◌∷◌, Bool, true, false, ◌&&◌, ◌||◌, Option, some, none, ◌==◌, ◌<>◌, inl, inr,
  ◌⊎◌, if◌then◌else◌,
}
use kubernetes_workflow.GoMap.{GoMap, made, nil_map, entries, insert, insert_all}
use kubernetes_workflow.Api.Meta.{
  ObjectMeta, JobTemplateSpec, JobSpec, JobCondition, Job, job_complete, job_failed, condition_true,
}
use kubernetes_workflow.Api.Types.{Workflow}
use kubernetes_workflow.World.{Cluster, World, Action, pure, ask, modify, ◌>>=◌, ◌>>◌}

-- `api.Group + "/workflow"`.
abbrev pub workflow_step_label_key : String
workflow_step_label_key = "nerdalize.com/workflow"

-- The errors that `CreateJob` returns, in the order of its returns.
pub data JobError : Type 0 where
  no_reference not_serialized no_object_meta not_converted not_created : JobError

-- `getWorkflowJobLabelSet`: the workflow's labels, the template's over them, and the step's name.
unfoldable pub workflow_job_label_set : Workflow → JobTemplateSpec → String → List (String × String)
workflow_job_label_set wf template step_name =
    insert workflow_step_label_key step_name
      (insert_all (entries template.meta.labels) (insert_all (entries wf.meta.labels) []))

-- The loop of `IsJobFinished`.
unfoldable pub any_job_finished : List JobCondition → Bool
any_job_finished [] = false
any_job_finished (c ∷ cs) =
    if (c.kind == job_complete || c.kind == job_failed) && c.status == condition_true
    then true
    else any_job_finished cs

unfoldable pub is_job_finished : Job → Bool
unfolding any_job_finished
is_job_finished j = any_job_finished j.conditions

module _ (cluster : Cluster) where
  -- `getJobsPrefix`.
  unfoldable pub jobs_prefix : String → String
  jobs_prefix controller_name =
      let prefix = controller_name <> "-" in
      if cluster.is_dns_prefix prefix then prefix else controller_name

  -- `getJobsAnnotationSet`: the annotations of the workflow and the reference to it, or an error.
  unfoldable pub jobs_annotation_set : Workflow → JobError ⊎ List (String × String)
  jobs_annotation_set wf =
      let desired = insert_all (entries wf.meta.annotations) [] in
      elim (cluster.workflow_reference wf) [
        | none ↦ inl no_reference
        | some ref ↦ elim (cluster.encode_reference ref) [
          | none ↦ inl not_serialized
          | some json ↦ inr (insert cluster.created_by_annotation json desired)
        ]
      ]

  -- The job that `CreateJob` sends.
  abbrev pub new_job : List (String × String) → List (String × String) → String → JobSpec → Job
  new_job labels annotations prefix spec = record {
    meta = record {
      name = "";
      generate_name = prefix;
      namespace = "";
      uid = "";
      resource_version = "";
      labels = made labels;
      annotations = made annotations;
    };
    spec = spec;
    conditions = [];
  }

  -- What follows the answer to `Create`: the job is there, or a warning event is recorded.
  abbrev pub job_sent : String → Workflow → Job → Bool → Action (Option JobError)
  job_sent namespace wf job true =
      modify (λ w. record w { created = (namespace, job) ∷ w.created }) >> pure none
  job_sent namespace wf job false =
      modify (λ w. record w { events = wf.meta.name ∷ w.events }) >> pure (some not_created)

  -- `Jobs(namespace).Create(job)`, with the warning event where it fails.
  unfoldable pub send_job : String → Workflow → Job → Action (Option JobError)
  send_job namespace wf job = do
    accepted ← ask (λ i. cluster.accepts_job i namespace job)
    job_sent namespace wf job accepted

  -- `Control.CreateJob`: an error, or none.
  unfoldable pub create_job :
      String → JobTemplateSpec → Workflow → String → Action (Option JobError)
  create_job namespace template wf step_name =
      let labels = workflow_job_label_set wf template step_name in
      elim (jobs_annotation_set wf) [
        | inl e ↦ pure (some e)
        | inr annotations ↦ elim (cluster.object_meta_for wf) [
          | none ↦ pure (some no_object_meta)
          | some meta ↦ elim (cluster.convert_spec template.spec) [
            | none ↦ pure (some not_converted)
            | some spec ↦
                send_job namespace wf (new_job labels annotations (jobs_prefix meta.name) spec)
          ]
        ]
      ]

-- `DeleteJob`: it does nothing yet.
unfoldable pub delete_job : String → String → Workflow → Option JobError
delete_job namespace job_name wf = none
