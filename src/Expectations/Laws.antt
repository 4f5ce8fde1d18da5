-- ===== src/Expectations/Laws.antt =====
-- The expectations as a partial function from a workflow's key and a step to a time, and what each
-- operation does to it.
use kubernetes_workflow.Base.{
  ℕ, ◌-◌, String, Bool, true, false, ◌&&◌, Option, some, none, ltb, if◌then◌else◌, ◌==◌, ◌≡◌, sym,
  ap, ◌∙◌, arith, eq_iff, Option-cases, inl, inr,
}
use kubernetes_workflow.GoMap.{lookup, insert, erase}
use kubernetes_workflow.GoMap.Laws.{lookup-insert, lookup-erase, lookup-nil}
use kubernetes_workflow.Expectations.{
  Expectations, expectations_timeout, steps_or_new, expect_creation, is_expired,
  expectations_satisfied, creation_observed, delete_expectations,
}

-- The time at which the creation of the step's job was expected.
unfoldable pub pending : Expectations → String → String → Option ℕ
pending store key step = elim (lookup key store) [ none ↦ none | some steps ↦ lookup step steps ]

-- No expectation, or one that is older than the timeout.
abbrev pub settled : ℕ → Option ℕ → Bool
settled now none = true
settled now (some timestamp) = ltb expectations_timeout (now - timestamp)

pub satisfied-pending :
    (now : ℕ) (key step : String) (store : Expectations)
    → expectations_satisfied now key step store ≡ settled now (pending store key step)
unfolding expectations_satisfied is_expired pending
satisfied-pending now key step store = ground arith

pub pending-expect_creation :
    (now : ℕ) (key step k s : String) (store : Expectations)
    → pending (expect_creation now key step store) k s
      ≡ (if (key == k) && (step == s) then some now else pending store k s)
unfolding pending expect_creation
pending-expect_creation now key step k s store = ground (
  arith,
  eq_iff key k,
  eq_iff step s,
  lookup-insert key k (insert step now (steps_or_new key store)) store,
  lookup-insert step s now (steps_or_new key store),
  lookup-nil {V = ℕ} s,
)

pub pending-creation_observed :
    (key step k s : String) (store : Expectations)
    → pending (creation_observed key step store).1 k s
      ≡ (if (key == k) && (step == s) then none else pending store k s)
unfolding pending creation_observed
pending-creation_observed key step k s store = elim (Option-cases (lookup key store)) [
  | inl absent ↦ rw (absent, creation_observed) (ground (arith, eq_iff key k))
  | inr (steps, found) ↦
      rw (found, creation_observed)
        (ground (
          arith,
          eq_iff key k,
          eq_iff step s,
          lookup-insert key k (erase step steps) store,
          lookup-erase step s steps,
        ))
]

pub pending-delete_expectations :
    (key k s : String) (store : Expectations)
    → pending (delete_expectations key store) k s ≡ (if key == k then none else pending store k s)
unfolding pending delete_expectations
pending-delete_expectations key k s store = ground (arith, lookup-erase key k store)

-- An operation that sets the expectation under a test changes what is settled under that test.
settled_by :
    (now : ℕ) (test : Bool) (value : Option ℕ) {before later : Bool} (old new : Option ℕ)
    → later ≡ settled now new
    → before ≡ settled now old
    → new ≡ (if test then value else old)
    → later ≡ (if test then settled now value else before)
settled_by now true value old new l b e = l ∙ ap (settled now) e
settled_by now false value old new l b e = l ∙ ap (settled now) e ∙ sym b

-- Once a creation is expected, the step's expectations are settled only when the timeout has passed
-- since then; those of every other step are as they were.
pub satisfied-expect_creation :
    (now t : ℕ) (key step k s : String) (store : Expectations)
    → expectations_satisfied now k s (expect_creation t key step store) ≡ (
        if (key == k) && (step == s)
        then ltb expectations_timeout (now - t)
        else expectations_satisfied now k s store)
satisfied-expect_creation now t key step k s store =
    settled_by now _ (some t) _ _ (satisfied-pending now k s (expect_creation t key step store))
      (satisfied-pending now k s store) (pending-expect_creation t key step k s store)

-- Once a creation was observed, the step's expectations are settled at any time; those of every other
-- step are as they were.
pub satisfied-creation_observed :
    (now : ℕ) (key step k s : String) (store : Expectations)
    → expectations_satisfied now k s (creation_observed key step store).1
      ≡ (if (key == k) && (step == s) then true else expectations_satisfied now k s store)
satisfied-creation_observed now key step k s store =
    settled_by now _ none _ _ (satisfied-pending now k s (creation_observed key step store).1)
      (satisfied-pending now k s store) (pending-creation_observed key step k s store)

-- Once a workflow's expectations are deleted, those of all of its steps are settled at any time; those
-- of every other workflow are as they were.
pub satisfied-delete_expectations :
    (now : ℕ) (key k s : String) (store : Expectations)
    → expectations_satisfied now k s (delete_expectations key store)
      ≡ (if key == k then true else expectations_satisfied now k s store)
satisfied-delete_expectations now key k s store =
    settled_by now _ none _ _ (satisfied-pending now k s (delete_expectations key store))
      (satisfied-pending now k s store) (pending-delete_expectations key k s store)
