-- ===== src/Transitioner/Steps.antt =====
-- pkg/workflow/transitioner.go: the processing of a workflow's steps. The workflow that the methods
-- change in place is an argument, and part of the result.
pub mod Contract
pub mod Found
pub mod Round
pub mod Jobs
pub mod Grounds
pub mod Loop
pub mod Outcome
pub mod Effects
pub mod Rule
pub mod Ready
pub mod Finishing
pub mod Completion
pub mod Listed
pub mod Still
pub mod Blocked
use kubernetes_workflow.Base.{
  ℕ, String, List, [], ◌∷◌, Bool, true, false, ◌&&◌, ◌||◌, not, Option, some, none, ◌==◌,
  if◌then◌else◌,
}
use kubernetes_workflow.GoMap.{GoMap, entries, get, assign}
use kubernetes_workflow.Api.Meta.{JobTemplateSpec, ObjectReference, Job}
use kubernetes_workflow.Api.Types.{Workflow, WorkflowStep, WorkflowStepStatus}
use kubernetes_workflow.Api.Methods.{step_complete, dependencies_resolved, add_complete_condition}
use kubernetes_workflow.Expectations.{expectations_satisfied, expect_creation}
use kubernetes_workflow.Job.{JobError, workflow_job_label_set, is_job_finished, create_job}
use kubernetes_workflow.Cache.{list_jobs}
use kubernetes_workflow.World.{
  Cluster, World, Action, pure, ask, modify, read, or_panic, ◌>>=◌, ◌>>◌,
}
use kubernetes_workflow.Transitioner.State.{share_statuses}

-- `xor` of two truth values, negated: Go's `==` on them.
abbrev pub same_bool : Bool → Bool → Bool
same_bool true b = b
same_bool false b = not b

abbrev pub with_statuses : GoMap WorkflowStepStatus → Workflow → Workflow
with_statuses statuses wf = record wf { status = record (wf.status) { statuses = statuses } }

-- `workflow.Spec.Steps[stepName].JobTemplate`.
abbrev pub template_of : Workflow → String → Option JobTemplateSpec
template_of wf name = elim (get name wf.spec.steps) [ none ↦ none | some s ↦ s.job_template ]

-- The step has a status, and it says of completion what the job does.
abbrev pub is_current : Option WorkflowStepStatus → Bool → Bool
is_current none finished = false
is_current (some st) finished = same_bool finished st.complete

-- `processExternalReferenceStep`: it does nothing yet.
unfoldable pub process_external_reference_step : Workflow → String → WorkflowStep → Bool
process_external_reference_step wf name step = false

module _ (cluster : Cluster) where
  -- `KeyFunc`, whose error `createJobForStep` drops.
  abbrev pub key_of : Workflow → String
  key_of wf = elim (cluster.key_func wf.meta) [ none ↦ "" | some key ↦ key ]

  -- What follows `CreateJob`: where it made a job, the creation is expected.
  unfoldable pub after_create : String → String → Option JobError → Action (Unit {0})
  after_create key name (some e) = pure tt
  after_create key name none = do
    now ← ask cluster.now
    modify (λ w. record w { expectations = expect_creation now key name w.expectations })

  -- `createJobForStep`.
  unfoldable pub create_job_for_step : Workflow → String → JobTemplateSpec → Action (Unit {0})
  create_job_for_step wf name template = do
    now ← ask cluster.now
    satisfied ← read (λ w. expectations_satisfied now (key_of wf) name w.expectations)
    if satisfied
        then create_job cluster wf.meta.namespace template wf name >>= after_create (key_of wf) name
        else pure tt

  -- `updateStepStatus`.
  unfoldable pub update_step_status : String → Workflow → String → Job → Action (Workflow × Bool)
  update_step_status key wf name job = elim (cluster.job_reference job) [
    | none ↦ pure (wf, false)
    | some ref ↦
        if is_current (get name wf.status.statuses) (is_job_finished job)
        then pure (wf, false)
        else (do
          statuses ← or_panic (
              assign name (record { complete = is_job_finished job; reference = ref })
                wf.status.statuses)
          let wf' = with_statuses statuses wf
          share_statuses key wf'
          pure (wf', true))
  ]

  -- The switch of `processJobStep` over the jobs found.
  unfoldable pub reconcile :
      String → Workflow → String → JobTemplateSpec → List Job → Action (Workflow × Bool)
  reconcile key wf name template [] = create_job_for_step wf name template >> pure (wf, false)
  reconcile key wf name template (job ∷ []) = update_step_status key wf name job
  reconcile key wf name template (job ∷ other ∷ jobs) = pure (wf, false)

  -- `processJobStep`, for a step with the given job template.
  unfoldable pub process_job_step :
      String → Workflow → String → WorkflowStep → JobTemplateSpec → Action (Workflow × Bool)
  process_job_step key wf name step template =
      if not (dependencies_resolved step wf) then pure (wf, false) else (do
        own ← or_panic (template_of wf name)
        store ← ask cluster.jobs
        let jobs = list_jobs cluster wf.meta.namespace (workflow_job_label_set wf own name) store
        reconcile key wf name template jobs)

-- The variables of the loop of `processSteps`.
pub record Progress : Type 0 where
  pub workflow : Workflow
  pub needs_update : Bool
  pub complete : Bool

module _ (cluster : Cluster) where
  -- The switch on the kind of the step.
  unfoldable pub process_step : String → Workflow → String → WorkflowStep → Action (Workflow × Bool)
  process_step key wf name step = elim step.job_template [
    | some template ↦ process_job_step cluster key wf name step template
    | none ↦ elim step.external_ref [
      | some ref ↦ pure (wf, process_external_reference_step wf name step)
      | none ↦ pure (wf, false)
    ]
  ]

  -- One round of the loop.
  unfoldable pub visit_step : String → String → WorkflowStep → Progress → Action Progress
  visit_step key name step p = if step_complete p.workflow.status.statuses name then pure p else (do
    r ← process_step key p.workflow name step
    pure (record { workflow = r.0; needs_update = r.1 || p.needs_update; complete = false }))

  unfoldable pub visit_steps : String → List (String × WorkflowStep) → Progress → Action Progress
  visit_steps key [] p = pure p
  visit_steps key ((name, step) ∷ steps) p = visit_step key name step p >>= visit_steps key steps

  -- What follows the loop.
  unfoldable pub conclude : Progress → Action (Workflow × Bool)
  conclude p =
      if p.complete
      then (do now ← ask cluster.now; pure (add_complete_condition now p.workflow, true))
      else pure (p.workflow, p.needs_update)

  -- `processSteps`: the workflow, and whether its status is to be updated.
  unfoldable pub process_steps : String → Workflow → Action (Workflow × Bool)
  process_steps key wf =
      visit_steps key (entries wf.spec.steps)
        (record { workflow = wf; needs_update = false; complete = true })
      >>= conclude
