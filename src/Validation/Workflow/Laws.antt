-- ===== src/Validation/Workflow/Laws.antt =====
-- What a workflow without errors looks like.
use kubernetes_workflow.Base.{ℕ, String, List, [], ◌∷◌, ◌++◌, none, ◌≡◌, ◌↔◌, ◌⊎◌, refl, ◌≢◌, arith}
use kubernetes_workflow.GoMap.{GoMap, entries}
use kubernetes_workflow.Api.Types.{Workflow, WorkflowSpec, WorkflowStep}
use kubernetes_workflow.Validation.Field.{FieldPath, Rules}
use kubernetes_workflow.Validation.Sort.{
  Steps, Visit, returned, failed, out_of_fuel, topological_sort,
}
use kubernetes_workflow.Validation.Sort.Acyclic.{Ranks}
use kubernetes_workflow.Validation.Sort.Correct.{
  IsClosed, KeepsElements, topological_sort_ends, topological_sort_accepts_iff,
}
use kubernetes_workflow.Validation.Workflow.{
  child, errors_of, exclusive_errors, validate_workflow_steps, validate_workflow_spec,
  validate_workflow, deadline_errors, selector_errors,
}

-- A step has a job template or an external reference, not both.
abbrev pub IsExclusive : String × WorkflowStep → Type 0
IsExclusive (k, v) = (v.job_template ≡ none) ⊎ (v.external_ref ≡ none)

abbrev pub AllExclusive : Steps → Type 0
AllExclusive [] = Unit
AllExclusive (e ∷ steps) = IsExclusive e × AllExclusive steps

-- Steps that can be run: their dependencies are steps and have no cycle, and each has one kind.
pub record IsRunnable (steps : Steps) : Type 0 where
  pub closed : IsClosed steps
  pub rank : String → ℕ
  pub ranks : Ranks steps rank
  pub exclusive : AllExclusive steps

pub append-eq-nil : {A : Type 0} (xs ys : List A) → (xs ++ ys ≡ []) ↔ ((xs ≡ []) × (ys ≡ []))
append-eq-nil [] ys = (λ e. (refl, e), λ h. h.1)
append-eq-nil (x ∷ xs) ys = ((λ e. cc), (λ h. cc))

exclusive_errors_iff :
    (path : FieldPath) (steps : Steps) → (exclusive_errors path steps ≡ []) ↔ AllExclusive steps
unfolding exclusive_errors
exclusive_errors_iff path [] = (λ _. tt, λ _. refl)
exclusive_errors_iff path ((k, v) ∷ steps) = ground (arith, exclusive_errors_iff path steps)

errors_of_nil :
    (r : Visit (List String))
    → r ≢ out_of_fuel
    → (errors_of r ≡ []) ↔ ((l : List String) × (r ≡ returned l))
errors_of_nil (returned l) h = (λ e. (l, refl), λ p. refl)
errors_of_nil (failed e) h = (λ p. cc, λ p. absurd (cc p.1))
errors_of_nil out_of_fuel h = absurd (h refl)

module _ (rules : Rules) (keeps : KeepsElements rules.sort_strings) where
  -- The validation finds no error in the steps exactly when they can be run.
  pub validate_workflow_steps_iff :
      (steps : GoMap WorkflowStep) (path : FieldPath)
      → (validate_workflow_steps rules steps path ≡ []) ↔ IsRunnable (entries steps)
  unfolding validate_workflow_steps
  validate_workflow_steps_iff steps path =
      let m = entries steps in
      let accepts = topological_sort_accepts_iff m path rules.sort_strings keeps in
      let sorts = errors_of_nil _ (topological_sort_ends m path rules.sort_strings keeps) in
      let parts =
        append-eq-nil (errors_of (topological_sort m path rules.sort_strings))
          (exclusive_errors path m) in
      let exclusive = exclusive_errors_iff path m in
      (
        λ e.
            let both = parts.0 e in
            let (closed, (rank, ranks)) = accepts.0 (sorts.0 both.0) in
            record { closed = closed; rank = rank; ranks = ranks; exclusive = exclusive.0 both.1 },
        λ h. parts.1 (sorts.1 (accepts.1 (h.closed, (h.rank, h.ranks))), exclusive.1 h.exclusive),
      )

  -- A specification has no error exactly when the validators of Kubernetes accept its deadline and
  -- its selector, which must be there, and its steps can be run.
  pub validate_workflow_spec_iff :
      (spec : WorkflowSpec) (path : FieldPath)
      → (validate_workflow_spec rules spec path ≡ []) ↔ (
          (deadline_errors rules spec path ≡ [])
          × (selector_errors rules spec path ≡ [])
          × IsRunnable (entries spec.steps))
  unfolding validate_workflow_spec
  validate_workflow_spec_iff spec path =
      let runs = validate_workflow_steps_iff spec.steps (child path "steps") in
      let outer = append-eq-nil (deadline_errors rules spec path) (
        selector_errors rules spec path
        ++ validate_workflow_steps rules spec.steps (child path "steps")) in
      let inner =
        append-eq-nil (selector_errors rules spec path)
          (validate_workflow_steps rules spec.steps (child path "steps")) in
      (
        λ e. let all = outer.0 e in let rest = inner.0 all.1 in (all.0, rest.0, runs.0 rest.1),
        λ h. outer.1 (h.0, inner.1 (h.1, runs.1 h.2)),
      )

  selector_set :
      (spec : WorkflowSpec) (path : FieldPath)
      → selector_errors rules spec path ≡ []
      → spec.jobs_selector ≢ none
  selector_set spec path e absent = ground arith

  -- A workflow without errors has a selector for its jobs, and its steps can be run.
  pub validate_workflow-IsRunnable :
      (wf : Workflow)
      → validate_workflow rules wf ≡ []
      → IsRunnable (entries wf.spec.steps) × (wf.spec.jobs_selector ≢ none)
  unfolding validate_workflow
  validate_workflow-IsRunnable wf e =
      let path : FieldPath = "spec" ∷ [] in
      let spec =
        (append-eq-nil (rules.validate_object_meta wf.meta ("metadata" ∷ []))
            (validate_workflow_spec rules wf.spec path)).0
          e in
      let parts = (validate_workflow_spec_iff wf.spec path).0 spec.1 in
      (parts.2, selector_set wf.spec path parts.1)
