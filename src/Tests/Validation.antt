-- ===== src/Tests/Validation.antt =====
-- The validation at small workflows.
use kubernetes_workflow.Base.{
  List, ◌==◌, eq_iff, subst, Bool-cases, String, [], ◌∷◌, true, false, none, some, ◌≡◌, ◌≢◌, ◌↔◌,
  inl, inr, refl, In, member,
}
use kubernetes_workflow.GoMap.{made, entries, lookup, get, keys}
use kubernetes_workflow.Api.Types.{Workflow}
use kubernetes_workflow.Api.Laws.{Completed}
use kubernetes_workflow.Validation.Sort.{
  remove, unwind, finish, visit_deps, visit, visit_keys, topological_sort,
}
use kubernetes_workflow.Validation.Workflow.{
  exclusive_errors, validate_workflow_steps, validate_workflow_spec, validate_workflow,
  validate_workflow_status,
}
use kubernetes_workflow.Validation.Workflow.Laws.{
  IsRunnable, validate_workflow_steps_iff, validate_workflow-IsRunnable,
}
use kubernetes_workflow.Validation.Update.{
  collect, running_and_completed_steps, all_completed, difference, removed_error, change_errors,
  modified_errors, validate_workflow_spec_update, validate_workflow_status_update,
  validate_workflow_update,
}
use kubernetes_workflow.Validation.Update.Laws.{
  Keeps, validate_workflow_update-Keeps, validate_workflow_update-Completed,
}
use kubernetes_workflow.Api.Types.{WorkflowStep}
use kubernetes_workflow.GoMap.Laws.{Distinct}
use kubernetes_workflow.Validation.Workflow.Order.{SameSteps, validate_workflow_steps_agree}
use kubernetes_workflow.Samples.{
  job_step, chain, uid_labels, fresh_workflow, sample_workflow, sample_rules, keeps_given,
  status_of,
}

-- `a` runs.
abbrev running_workflow : Workflow
running_workflow = sample_workflow uid_labels chain (made (("a", status_of false) ∷ []))

-- `a` and `b` have completed.
abbrev done_workflow : Workflow
done_workflow =
    sample_workflow uid_labels chain (made (("a", status_of true) ∷ ("b", status_of true) ∷ []))

-- What a run of the validation computes with.
validation_program : Unit {0}
unfolding validate_workflow_update validate_workflow_status_update validate_workflow_spec_update
    modified_errors change_errors removed_error difference all_completed running_and_completed_steps
    collect validate_workflow_status validate_workflow validate_workflow_spec
    validate_workflow_steps exclusive_errors topological_sort visit_keys visit visit_deps finish
    remove unwind member lookup
validation_program = tt

validate-fresh : validate_workflow sample_rules fresh_workflow ≡ []
unfolding validation_program
validate-fresh = refl

validate-running : validate_workflow_update sample_rules running_workflow running_workflow ≡ []
unfolding validation_program
validate-running = refl

validate_workflow_steps_iff_example :
    (validate_workflow_steps sample_rules (made chain) [] ≡ []) ↔ IsRunnable chain
validate_workflow_steps_iff_example =
    validate_workflow_steps_iff sample_rules keeps_given (made chain) []

validate_workflow-IsRunnable_example : IsRunnable chain × (fresh_workflow.spec.jobs_selector ≢ none)
validate_workflow-IsRunnable_example =
    validate_workflow-IsRunnable sample_rules keeps_given fresh_workflow validate-fresh

status-a : get "a" running_workflow.status.statuses ≡ some (status_of false)
unfolding lookup
status-a = refl

validate_workflow_update-Keeps_example : Keeps sample_rules (made chain) (made chain) "a"
validate_workflow_update-Keeps_example =
    validate_workflow_update-Keeps sample_rules keeps_given running_workflow running_workflow "a"
      (status_of false) validate-running (inr (inl refl)) status-a

all_done :
    (k : String)
    → In k (keys (entries done_workflow.spec.steps))
    → Completed done_workflow.status.statuses k
unfolding lookup
all_done k (inl e) = (status_of true, cc, refl)
all_done k (inr (inl e)) = (status_of true, cc, refl)
all_done k (inr (inr m)) = absurd m

validate_workflow_update-Completed_example :
    validate_workflow_update sample_rules done_workflow done_workflow ≢ []
validate_workflow_update-Completed_example =
    validate_workflow_update-Completed sample_rules keeps_given done_workflow done_workflow all_done

-- The steps of `chain`, met in the other order.
abbrev chain_reversed : List (String × WorkflowStep)
chain_reversed = ("a", job_step []) ∷ ("b", job_step ("a" ∷ [])) ∷ []

Distinct-chain : Distinct (keys chain)
unfolding member
Distinct-chain = (refl, (refl, tt))

Distinct-chain_reversed : Distinct (keys chain_reversed)
unfolding member
Distinct-chain_reversed = (refl, (refl, tt))

SameSteps-chain : SameSteps chain chain_reversed
unfolding lookup
SameSteps-chain k = elim (Bool-cases ("b" == k)) [
  | inl is_b ↦
      subst (λ (n : String). lookup n chain ≡ lookup n chain_reversed) ((eq_iff "b" k).0 is_b) refl
  | inr other ↦ simp other refl
]

validate_workflow_steps_agree_example :
    (validate_workflow_steps sample_rules (made chain) [] ≡ [])
    ↔ (validate_workflow_steps sample_rules (made chain_reversed) [] ≡ [])
validate_workflow_steps_agree_example =
    validate_workflow_steps_agree sample_rules chain chain_reversed [] keeps_given Distinct-chain
      Distinct-chain_reversed SameSteps-chain
