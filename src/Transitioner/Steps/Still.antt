-- ===== src/Transitioner/Steps/Still.antt =====
-- What `processSteps` leaves as it is where it wants no update.
use kubernetes_workflow.Base.{
  String, List, [], ◌∷◌, Bool, true, false, ◌||◌, ◌≡◌, inl, inr, refl, ◌∙◌, arith, Bool-cases,
  Option-cases,
}
use kubernetes_workflow.GoMap.{entries}
use kubernetes_workflow.Api.Meta.{JobTemplateSpec, Job}
use kubernetes_workflow.Api.Types.{Workflow, WorkflowStep}
use kubernetes_workflow.Api.Methods.{step_complete, dependencies_resolved}
use kubernetes_workflow.World.{Cluster, World, pure}
use kubernetes_workflow.World.Runs.{Runs, Runs-bind, Runs-map}
use kubernetes_workflow.Transitioner.Steps.{
  Progress, create_job_for_step, reconcile, process_job_step, process_step, visit_step, visit_steps,
  conclude, process_steps, template_of,
}
use kubernetes_workflow.Transitioner.Steps.Contract.{
  Attempt, create_job_for_step-Attempt, update_step_status_ind,
}

-- Where no update is wanted, the workflow and the store are as they were.
abbrev pub Still : Workflow → World → Workflow × Bool → World → Type 0
Still wf w r w' = r.1 ≡ false → (r.0 ≡ wf) × (w'.store ≡ w.store)

-- The same of the loop: no round wanted an update.
abbrev StillLoop : Progress → World → Progress → World → Type 0
StillLoop p w q w' =
    q.needs_update ≡ false
    → (q.workflow ≡ p.workflow) × (w'.store ≡ w.store) × (p.needs_update ≡ false)

module _ (cluster : Cluster) (key : String) where
  reconcile-Still :
      (wf : Workflow) (name : String) (template : JobTemplateSpec) (jobs : List Job) (w : World)
      → Runs (Still wf w) (λ v. Unit {0}) (reconcile cluster key wf name template jobs w)
  unfolding reconcile
  reconcile-Still wf name template [] w =
      Runs-bind (λ u w'. w'.store ≡ w.store) (Still wf w) (λ v. Unit)
        (create_job_for_step cluster wf name template) (λ u. pure (wf, false)) w
        (Runs-map (λ u w'. Attempt cluster wf name template w w') (λ u w'. w'.store ≡ w.store)
          (λ v. ⊥) (λ v. Unit) _ (create_job_for_step-Attempt cluster wf name template w)
          (λ u w' a. a.stored) (λ v no. tt))
        (λ u w' same f. (refl, same))
  reconcile-Still wf name template (job ∷ []) w =
      update_step_status_ind cluster (Still wf w) (λ v. Unit) key wf name job w (λ f. (refl, refl))
        tt (λ ref statuses written f. cc)
  reconcile-Still wf name template (job ∷ other ∷ jobs) w = λ f. (refl, refl)

  process_job_step-Still :
      (wf : Workflow) (name : String) (step : WorkflowStep) (template : JobTemplateSpec) (w : World)
      → Runs (Still wf w) (λ v. Unit {0}) (process_job_step cluster key wf name step template w)
  unfolding process_job_step
  process_job_step-Still wf name step template w =
      elim (Bool-cases (dependencies_resolved step wf)) [
        | inr waiting ↦ simp waiting (λ f. (refl, refl))
        | inl resolved ↦ elim (Option-cases (template_of wf name)) [
          | inl none_own ↦ simp (resolved, none_own) tt
          | inr (own, is_own) ↦ simp (resolved, is_own) (reconcile-Still wf name template _ _)
        ]
      ]

  process_step-Still :
      (wf : Workflow) (name : String) (step : WorkflowStep) (w : World)
      → Runs (Still wf w) (λ v. Unit {0}) (process_step cluster key wf name step w)
  unfolding process_step
  process_step-Still wf name step w = elim (Option-cases step.job_template) [
    | inr (template, kind) ↦
        rw (kind, process_step) (process_job_step-Still wf name step template w)
    | inl no_template ↦ elim (Option-cases step.external_ref) [
      | inl no_ref ↦ rw (no_template, no_ref, process_step) (λ f. (refl, refl))
      | inr (ref, is_ref) ↦ rw (no_template, is_ref, process_step) (λ f. (refl, refl))
    ]
  ]

  visit_step-Still :
      (name : String) (step : WorkflowStep) (p : Progress) (w : World)
      → Runs (StillLoop p w) (λ v. Unit {0}) (visit_step cluster key name step p w)
  unfolding visit_step
  visit_step-Still name step p w =
      elim (Bool-cases (step_complete p.workflow.status.statuses name)) [
        | inl done ↦ simp done (λ f. (refl, refl, f))
        | inr open_step ↦ simp open_step (
            Runs-bind (Still p.workflow w) (StillLoop p w) (λ v. Unit)
              (process_step cluster key p.workflow name step)
              (λ r.
                pure (record {
                  workflow = r.0;
                  needs_update = r.1 || p.needs_update;
                  complete = false;
                }))
              w (process_step-Still p.workflow name step w)
              (λ r w' still f.
                let (same, stored) = still (ground arith) in (same, stored, ground arith)))
      ]

  visit_steps-Still :
      (steps : List (String × WorkflowStep)) (p : Progress) (w : World)
      → Runs (StillLoop p w) (λ v. Unit {0}) (visit_steps cluster key steps p w)
  unfolding visit_steps
  visit_steps-Still [] p w = λ f. (refl, refl, f)
  visit_steps-Still ((name, step) ∷ steps) p w =
      Runs-bind (StillLoop p w) (StillLoop p w) (λ v. Unit) (visit_step cluster key name step p)
        (visit_steps cluster key steps) w (visit_step-Still name step p w)
        (λ q w' first.
          Runs-map (StillLoop q w') (StillLoop p w) (λ v. Unit) (λ v. Unit) _
            (visit_steps-Still steps q w')
            (λ r v later f.
              let (same, stored, unwanted) = later f in
              let (same', stored', unwanted') = first unwanted in
              (same ∙ same', stored ∙ stored', unwanted'))
            (λ v u. u))

  conclude-Still :
      (wf : Workflow) (w : World) (p : Progress) (w' : World)
      → StillLoop (record { workflow = wf; needs_update = false; complete = true }) w p w'
      → Runs (Still wf w) (λ v. Unit {0}) (conclude cluster p w')
  unfolding conclude
  conclude-Still wf w p w' h = elim (Bool-cases p.complete) [
    | inl set ↦ simp set (λ f. cc)
    | inr unset ↦ simp unset (λ f. let (same, stored, u) = h f in (same, stored))
  ]

  -- Where `processSteps` wants no update, it leaves the workflow and the store as they were.
  pub process_steps-Still :
      (wf : Workflow) (w : World)
      → Runs (Still wf w) (λ v. Unit {0}) (process_steps cluster key wf w)
  unfolding process_steps
  process_steps-Still wf w =
      let p : Progress = record { workflow = wf; needs_update = false; complete = true } in
      Runs-bind (StillLoop p w) (Still wf w) (λ v. Unit)
        (visit_steps cluster key (entries wf.spec.steps) p) (conclude cluster) w
        (visit_steps-Still (entries wf.spec.steps) p w) (λ q w' h. conclude-Still wf w q w' h)
