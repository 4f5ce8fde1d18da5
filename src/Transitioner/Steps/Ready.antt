-- ===== src/Transitioner/Steps/Ready.antt =====
-- A step that can be processed: it is not complete, and its dependencies are.
use kubernetes_workflow.Base.{
  ℕ, zero, suc, ◌<◌, String, List, [], ◌∷◌, true, false, some, ◌≡◌, refl, arith, In, inl, inr,
  Bool-cases,
}
use kubernetes_workflow.GoMap.{GoMap, entries, keys, lookup}
use kubernetes_workflow.GoMap.Laws.{lookup_of_In}
use kubernetes_workflow.Api.Types.{Workflow, WorkflowStep, WorkflowStepStatus}
use kubernetes_workflow.Api.Methods.{step_complete, all_complete, dependencies_resolved}
use kubernetes_workflow.Validation.Field.{Rules}
use kubernetes_workflow.Validation.Sort.Correct.{KeepsElements}
use kubernetes_workflow.Validation.Workflow.{validate_workflow}
use kubernetes_workflow.Validation.Workflow.Laws.{IsRunnable, validate_workflow-IsRunnable}

-- The step of the workflow that is next.
pub record IsReady (wf : Workflow) (name : String) (step : WorkflowStep) : Type 0 where
  pub listed : lookup name (entries wf.spec.steps) ≡ some step
  pub incomplete : step_complete wf.status.statuses name ≡ false
  pub resolved : dependencies_resolved step wf ≡ true

first_open :
    (statuses : GoMap WorkflowStepStatus) (names : List String)
    → all_complete statuses names ≡ false
    → (name : String) × In name names × (step_complete statuses name ≡ false)
unfolding all_complete
first_open statuses [] open_one = cc
first_open statuses (name ∷ names) open_one = elim (Bool-cases (step_complete statuses name)) [
  | inr here ↦ (name, inl refl, here)
  | inl done ↦
      let (later, there, incomplete) = first_open statuses names (ground (arith, done, open_one)) in
      (later, inr there, incomplete)
]

module _ (wf : Workflow) (runnable : IsRunnable (entries wf.spec.steps)) where
  -- Below an incomplete step there is a ready one: the search goes from a step to an incomplete
  -- dependency, and its rank falls.
  IsReady-below :
      (bound : ℕ) (name : String) (step : WorkflowStep)
      → lookup name (entries wf.spec.steps) ≡ some step
      → step_complete wf.status.statuses name ≡ false
      → runnable.rank name < bound
      → (ready : String) × ((found : WorkflowStep) × IsReady wf ready found)
  unfolding dependencies_resolved
  IsReady-below zero name step listed incomplete low = absurd (omega (arith, low))
  IsReady-below (suc bound) name step listed incomplete low =
      elim (Bool-cases (all_complete wf.status.statuses step.dependencies)) [
        | inl resolved ↦
            (name, (step, record { listed = listed; incomplete = incomplete; resolved = resolved }))
        | inr unresolved ↦
            let (dependency, there, open_one) =
              first_open wf.status.statuses step.dependencies unresolved in
            let (found, found_it) =
              lookup_of_In dependency (entries wf.spec.steps)
                (runnable.closed name step listed dependency there) in
            let falls = runnable.ranks name step listed dependency there in
            IsReady-below bound dependency found found_it open_one (omega (arith, low, falls))
      ]

-- A workflow without errors whose steps are not all complete has a step that is ready: it is not
-- complete, and its dependencies are. So a workflow never waits for itself. The sort of texts keeps the
-- elements of a list.
pub validate_workflow-IsReady :
    (rules : Rules) (wf : Workflow)
    → KeepsElements rules.sort_strings
    → validate_workflow rules wf ≡ []
    → all_complete wf.status.statuses (keys (entries wf.spec.steps)) ≡ false
    → (name : String) × ((step : WorkflowStep) × IsReady wf name step)
validate_workflow-IsReady rules wf keeps valid unfinished =
    let runnable = (validate_workflow-IsRunnable rules keeps wf valid).0 in
    let (name, there, incomplete) =
      first_open wf.status.statuses (keys (entries wf.spec.steps)) unfinished in
    let (step, listed) = lookup_of_In name (entries wf.spec.steps) there in
    IsReady-below wf runnable (suc (runnable.rank name)) name step listed incomplete (omega arith)
