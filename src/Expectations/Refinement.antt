-- ===== src/Expectations/Refinement.antt =====
-- The store of expectations as its users see it: for each step of each workflow the last operation that
-- concerns it decides, whatever sets of steps the store has made.
use kubernetes_workflow.Base.{
  ℕ, String, List, [], ◌∷◌, ◌&&◌, Option, some, none, if◌then◌else◌, ◌==◌, ◌≡◌, refl, ap, ◌∙◌,
}
use kubernetes_workflow.Expectations.{
  Expectations, expect_creation, expectations_satisfied, creation_observed, delete_expectations,
}
use kubernetes_workflow.Expectations.Laws.{
  pending, settled, satisfied-pending, pending-expect_creation, pending-creation_observed,
  pending-delete_expectations,
}

-- The operations that change the store; `ExpectCreation` with the time of its call.
pub data Operation : Type 0 where
  creation_expected : ℕ → String → String → Operation
  creation_seen : String → String → Operation
  workflow_forgotten : String → Operation

abbrev pub apply : Operation → Expectations → Expectations
apply (creation_expected now key step) store = expect_creation now key step store
apply (creation_seen key step) store = (creation_observed key step store).1
apply (workflow_forgotten key) store = delete_expectations key store

-- The operations, one after the other.
unfoldable pub apply_all : List Operation → Expectations → Expectations
apply_all [] store = store
apply_all (o ∷ operations) store = apply_all operations (apply o store)

-- The time since which the creation of one step's job is expected, after an operation.
abbrev pub expected_after : String → String → Operation → Option ℕ → Option ℕ
expected_after k s (creation_expected now key step) since =
    if (key == k) && (step == s) then some now else since
expected_after k s (creation_seen key step) since =
    if (key == k) && (step == s) then none else since
expected_after k s (workflow_forgotten key) since = if key == k then none else since

unfoldable pub expected_since : String → String → List Operation → Option ℕ → Option ℕ
expected_since k s [] since = since
expected_since k s (o ∷ operations) since =
    expected_since k s operations (expected_after k s o since)

pending-apply :
    (k s : String) (o : Operation) (store : Expectations)
    → pending (apply o store) k s ≡ expected_after k s o (pending store k s)
pending-apply k s (creation_expected now key step) store =
    pending-expect_creation now key step k s store
pending-apply k s (creation_seen key step) store = pending-creation_observed key step k s store
pending-apply k s (workflow_forgotten key) store = pending-delete_expectations key k s store

pending-apply_all :
    (k s : String) (operations : List Operation) (store : Expectations)
    → pending (apply_all operations store) k s ≡ expected_since k s operations (pending store k s)
unfolding apply_all expected_since
pending-apply_all k s [] store = refl
pending-apply_all k s (o ∷ operations) store =
    pending-apply_all k s operations (apply o store)
    ∙ ap (expected_since k s operations) (pending-apply k s o store)

-- After any operations on a store, the expectations of a step are settled exactly where the operations
-- on this step alone leave no expected creation, or one since which the timeout has passed.
pub satisfied-apply_all :
    (now : ℕ) (k s : String) (operations : List Operation) (store : Expectations)
    → expectations_satisfied now k s (apply_all operations store)
      ≡ settled now (expected_since k s operations (pending store k s))
satisfied-apply_all now k s operations store =
    satisfied-pending now k s (apply_all operations store)
    ∙ ap (settled now) (pending-apply_all k s operations store)
