-- ===== src/Transitioner/Steps/Finishing.antt =====
-- A round of `processSteps` where the job store has the finished job of every step.
use kubernetes_workflow.Base.{
  ℕ, String, List, [], ◌∷◌, true, false, ◌||◌, some, none, ◌≡◌, refl, sym, ap, subst, arith, In,
  inl, inr, Bool-cases,
}
use kubernetes_workflow.GoMap.{GoMap, made, entries, lookup, insert}
use kubernetes_workflow.GoMap.Laws.{lookup-insert, lookup-insert_self}
use kubernetes_workflow.Api.Meta.{ObjectReference, JobTemplateSpec, Job}
use kubernetes_workflow.Api.Types.{Workflow, WorkflowSpec, WorkflowStep, WorkflowStepStatus}
use kubernetes_workflow.Api.Methods.{step_complete, all_complete, dependencies_resolved}
use kubernetes_workflow.Api.Laws.{all_complete_iff}
use kubernetes_workflow.Job.{workflow_job_label_set, is_job_finished}
use kubernetes_workflow.Cache.{list_jobs}
use kubernetes_workflow.World.{Cluster, World, pure}
use kubernetes_workflow.World.Runs.{Runs, Runs-bind, Runs-map}
use kubernetes_workflow.Transitioner.Steps.{
  Progress, template_of, with_statuses, process_job_step, process_step, visit_step, visit_steps,
}
use kubernetes_workflow.Transitioner.Steps.Jobs.{KeepsComplete, Completed-kept}
use kubernetes_workflow.Transitioner.Steps.Round.{process_step_job}
use kubernetes_workflow.Transitioner.Steps.Effects.{process_step_completes}

-- Whatever is asked, the store has one job of each step, which is finished, and to which a reference can
-- be made; and every step has a job template.
pub record HasFinishedJobs (cluster : Cluster) (wf : Workflow) : Type 0 where
  pub job_of : String → Job
  pub reference_of : String → ObjectReference
  pub template : String → JobTemplateSpec
  pub finished : (name : String) → is_job_finished (job_of name) ≡ true
  pub refers : (name : String) → cluster.job_reference (job_of name) ≡ some (reference_of name)
  pub kind :
      (name : String) (step : WorkflowStep)
      → In (name, step) (entries wf.spec.steps)
      → (step.job_template ≡ some (template name)) × (template_of wf name ≡ some (template name))
  pub found :
      (name : String) (step : WorkflowStep) (question : ℕ)
      → In (name, step) (entries wf.spec.steps)
      → list_jobs cluster wf.meta.namespace
          (workflow_job_label_set wf (template name) name)
          (cluster.jobs question)
        ≡ job_of name ∷ []

labels_same :
    (wf wf' : Workflow) (template : JobTemplateSpec) (name : String)
    → wf'.meta ≡ wf.meta
    → workflow_job_label_set wf' template name ≡ workflow_job_label_set wf template name
unfolding workflow_job_label_set
labels_same wf wf' template name same = rw same refl

-- A status that says complete keeps the complete steps complete.
complete_insert :
    (name n : String) (ref : ObjectReference) (statuses : List (String × WorkflowStepStatus))
    → step_complete (made statuses) n ≡ true
    → step_complete (made (insert name (record { complete = true; reference = ref }) statuses)) n
      ≡ true
unfolding step_complete
complete_insert name n ref statuses done =
    ground
      (arith, lookup-insert name n (record { complete = true; reference = ref }) statuses, done)

all_complete_kept :
    (old new : GoMap WorkflowStepStatus) (names : List String)
    → KeepsComplete old new
    → all_complete old names ≡ true
    → all_complete new names ≡ true
all_complete_kept old new names kept done =
    (all_complete_iff new names).1
      (Completed-kept old new names kept ((all_complete_iff old names).0 done))

module _ (cluster : Cluster) (key : String) (base : Workflow)
    (env : HasFinishedJobs cluster base) where
  -- The workflow with other statuses and conditions, and a map of statuses that is made.
  abbrev pub Later : Workflow → Type 0
  Later wf =
      (wf.meta ≡ base.meta)
      × (wf.spec ≡ base.spec)
      × ((statuses : List (String × WorkflowStepStatus)) × (wf.status.statuses ≡ made statuses))

  -- Complete steps stay complete, and the step becomes complete if its dependencies were.
  abbrev pub Advanced : Workflow → String → WorkflowStep → Workflow → Type 0
  Advanced wf name step wf' =
      Later wf'
      × KeepsComplete wf.status.statuses wf'.status.statuses
      × (all_complete wf.status.statuses step.dependencies ≡ true
          → step_complete wf'.status.statuses name ≡ true)

  completed-Advanced :
      (wf : Workflow) (name : String) (step : WorkflowStep) (ref : ObjectReference)
      (statuses : List (String × WorkflowStepStatus))
      → Later wf
      → wf.status.statuses ≡ made statuses
      → Advanced wf name step (
          with_statuses
            (made (insert name (record { complete = true; reference = ref }) statuses))
            wf)
  unfolding step_complete
  completed-Advanced wf name step ref statuses (meta, spec, was_made) was = (
    (meta, spec, (_, refl)),
    λ n done.
        complete_insert name n ref statuses
          (subst (λ (m : GoMap WorkflowStepStatus). step_complete m n ≡ true) was done),
    λ resolved.
        ground
          (arith, lookup-insert_self name (record { complete = true; reference = ref }) statuses),
  )

  process_step-Advanced :
      (wf : Workflow) (name : String) (step : WorkflowStep) (w : World)
      → Later wf
      → In (name, step) (entries base.spec.steps)
      → step_complete wf.status.statuses name ≡ false
      → Runs (λ r w'. Advanced wf name step r.0) (λ v. ⊥) (process_step cluster key wf name step w)
  unfolding dependencies_resolved process_job_step
  process_step-Advanced wf name step w later listed incomplete =
      let (meta, spec, (statuses, was)) = later in
      let (kind, own) = env.kind name step listed in
      elim (Bool-cases (dependencies_resolved step wf)) [
        | inl resolved ↦
            subst (Runs (λ r w'. Advanced wf name step r.0) (λ v. ⊥))
              (sym (
                process_step_completes cluster key wf name step (env.template name) w kind resolved
                  (subst
                    (λ (s : WorkflowSpec).
                      (elim (lookup name (entries s.steps)) [
                        | none ↦ none
                        | some x ↦ x.job_template
                      ])
                      ≡ some (env.template name))
                    (sym spec) own)
                  (env.job_of name)
                  (rw (labels_same base wf (env.template name) name meta, meta)
                    (env.found name step w.asked listed))
                  (env.reference_of name) statuses (env.refers name) (env.finished name) incomplete
                  was))
              (completed-Advanced wf name step (env.reference_of name) statuses later was)
        | inr unresolved ↦
            subst (Runs (λ r w'. Advanced wf name step r.0) (λ v. ⊥))
              (sym (process_step_job cluster key wf name step (env.template name) w kind))
              (simp unresolved (later, (λ n done. done), λ resolved. cc resolved))
      ]

  visit_step-Advanced :
      (name : String) (step : WorkflowStep) (p : Progress) (w : World)
      → Later p.workflow
      → In (name, step) (entries base.spec.steps)
      → Runs
          (λ q w'. Advanced p.workflow name step q.workflow)
          (λ v. ⊥)
          (visit_step cluster key name step p w)
  unfolding visit_step
  visit_step-Advanced name step p w later listed =
      elim (Bool-cases (step_complete p.workflow.status.statuses name)) [
        | inl done ↦ simp done (later, (λ n was. was), λ resolved. refl)
        | inr open_step ↦ simp open_step (
            Runs-bind (λ r w'. Advanced p.workflow name step r.0)
              (λ q w'. Advanced p.workflow name step q.workflow) (λ v. ⊥)
              (process_step cluster key p.workflow name step)
              (λ r.
                pure (record {
                  workflow = r.0;
                  needs_update = r.1 || p.needs_update;
                  complete = false;
                }))
              w (process_step-Advanced p.workflow name step w later listed open_step)
              (λ r w' advanced. advanced))
      ]

  -- The same for all of the steps.
  abbrev pub AdvancedAll : Workflow → List (String × WorkflowStep) → Workflow → Type 0
  AdvancedAll wf steps wf' =
      Later wf'
      × KeepsComplete wf.status.statuses wf'.status.statuses
      × ((name : String) (step : WorkflowStep)
          → In (name, step) steps
          → all_complete wf.status.statuses step.dependencies ≡ true
          → step_complete wf'.status.statuses name ≡ true)

  AdvancedAll-cons :
      (wf wf' wf'' : Workflow) (name : String) (step : WorkflowStep)
      (steps : List (String × WorkflowStep))
      → Advanced wf name step wf'
      → AdvancedAll wf' steps wf''
      → AdvancedAll wf ((name, step) ∷ steps) wf''
  AdvancedAll-cons wf wf' wf'' name step steps (later, kept, done) (later', kept', rest) = (
    later',
    (λ n was. kept' n (kept n was)),
    λ n s listed resolved. elim listed [
      | inl here ↦
          let same_step = ap (λ (e : String × WorkflowStep). e.1) here in
          let same_name = ap (λ (e : String × WorkflowStep). e.0) here in
          kept' n (
            subst (λ (x : String). step_complete wf'.status.statuses x ≡ true) (sym same_name)
              (done (
                subst (λ (x : WorkflowStep). all_complete wf.status.statuses x.dependencies ≡ true)
                  same_step resolved)))
      | inr there ↦
          rest n s there
            (all_complete_kept wf.status.statuses wf'.status.statuses s.dependencies kept resolved)
    ],
  )

  pub visit_steps-AdvancedAll :
      (steps : List (String × WorkflowStep)) (p : Progress) (w : World)
      → Later p.workflow
      → ((e : String × WorkflowStep) → In e steps → In e (entries base.spec.steps))
      → Runs
          (λ q w'. AdvancedAll p.workflow steps q.workflow)
          (λ v. ⊥)
          (visit_steps cluster key steps p w)
  unfolding visit_steps
  visit_steps-AdvancedAll [] p w later listed =
      (later, (λ n was. was), λ name step none_in resolved. absurd none_in)
  visit_steps-AdvancedAll ((name, step) ∷ steps) p w later listed =
      Runs-bind (λ q w'. Advanced p.workflow name step q.workflow)
        (λ q w'. AdvancedAll p.workflow ((name, step) ∷ steps) q.workflow) (λ v. ⊥)
        (visit_step cluster key name step p) (visit_steps cluster key steps) w
        (visit_step-Advanced name step p w later (listed (name, step) (inl refl)))
        (λ q w' advanced.
          Runs-map (λ x v. AdvancedAll q.workflow steps x.workflow)
            (λ x v. AdvancedAll p.workflow ((name, step) ∷ steps) x.workflow) (λ v. ⊥) (λ v. ⊥) _
            (visit_steps-AdvancedAll steps q w' advanced.0 (λ e there. listed e (inr there)))
            (λ x v all.
              AdvancedAll-cons p.workflow q.workflow x.workflow name step steps advanced all)
            (λ v none_panics. none_panics))
