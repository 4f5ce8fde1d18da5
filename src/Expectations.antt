-- ===== src/Expectations.antt =====
-- pkg/workflow/utils.go: the expectations that keep a step's job from being created twice while the
-- informer has not yet seen the first one. Both levels of the store are made maps. The lock is taken
-- for each whole operation, so an operation is one function. The time of the call is an argument.
pub mod Laws
pub mod Refinement
use kubernetes_workflow.Base.{
  ℕ, ◌-◌, ◌*◌, ◌^◌, String, List, [], Bool, true, false, Option, some, none, ltb, if◌then◌else◌,
}
use kubernetes_workflow.GoMap.{lookup, insert, erase}

-- `StepExpectations`: the time of the expectation of each step.
abbrev pub StepExpectations : Type 0
StepExpectations = List (String × ℕ)

-- The store of `WorkflowStepExpectations`, by the workflow's key.
abbrev pub Expectations : Type 0
Expectations = List (String × StepExpectations)

-- `5 * time.Minute`, in nanoseconds.
abbrev pub expectations_timeout : ℕ
expectations_timeout = 5 * 60 * 10 ^ 9

abbrev pub new_expectations : Expectations
new_expectations = []

-- The set of a workflow, made where it does not exist yet.
abbrev pub steps_or_new : String → Expectations → StepExpectations
steps_or_new key store = elim (lookup key store) [ none ↦ [] | some steps ↦ steps ]

unfoldable pub expect_creation : ℕ → String → String → Expectations → Expectations
expect_creation now key step store = insert key (insert step now (steps_or_new key store)) store

-- `RealClock{}.Since(timestamp) > ExpectationsTimeout`: a time that lies ahead is not expired.
unfoldable pub is_expired : ℕ → ℕ → Bool
is_expired now timestamp = ltb expectations_timeout (now - timestamp)

unfoldable pub expectations_satisfied : ℕ → String → String → Expectations → Bool
expectations_satisfied now key step store = elim (lookup key store) [
  | none ↦ true
  | some steps ↦ elim (lookup step steps) [
    | none ↦ true
    | some timestamp ↦ is_expired now timestamp
  ]
]

-- The error of `CreationObserved`, and the store after it.
pub data Observed : Type 0 where
  observed unexpected : Observed

unfoldable pub creation_observed : String → String → Expectations → Observed × Expectations
creation_observed key step store = elim (lookup key store) [
  | none ↦ (unexpected, store)
  | some steps ↦ (observed, insert key (erase step steps) store)
]

unfoldable pub delete_expectations : String → Expectations → Expectations
delete_expectations key store = erase key store
