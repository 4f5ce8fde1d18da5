-- ===== src/Registration/Laws.antt =====
-- When the registration ends, and with what.
use kubernetes_workflow.Base.{
  ℕ, zero, suc, ◌+◌, ◌≤◌, ◌<◌, Bool, true, false, Option, some, ◌≡◌, ◌⊎◌, ◌↔◌, inl, inr, refl,
  arith, Bool-cases, ap, subst,
}
use kubernetes_workflow.Registration.{
  GetAnswer, present, not_found, unreachable, Registered, was_present, was_created,
  third_party_resource_retry_on_fail, await_answer, create_tries, created_or_failed,
  register_third_party_resource,
}

le_cases : (i n : ℕ) → i ≤ n → (n ≡ i) ⊎ (suc i ≤ n)
le_cases i n h = omega arith

-- The first answer that says whether the resource is there.
abbrev pub answer_of : Bool → GetAnswer
answer_of true = present
answer_of false = not_found

-- The requests before `n` did not reach the server.
abbrev pub Waits : (answers : ℕ → GetAnswer) (i n : ℕ) → Type 0
Waits answers i n = (k : ℕ) → i ≤ k → k < n → answers k ≡ unreachable

answered_now :
    (fuel i : ℕ) (answers : ℕ → GetAnswer) (there : Bool)
    → answers i ≡ answer_of there
    → await_answer (suc fuel) answers i ≡ some there
unfolding await_answer
answered_now fuel i answers true e = rw (e, await_answer) refl
answered_now fuel i answers false e = rw (e, await_answer) refl

-- The loop skips the requests that do not reach the server.
await_answer_answered :
    (fuel i n : ℕ) (answers : ℕ → GetAnswer) (there : Bool)
    → i ≤ n
    → n < i + fuel
    → Waits answers i n
    → answers n ≡ answer_of there
    → await_answer fuel answers i ≡ some there
unfolding await_answer
await_answer_answered zero i n answers there low high waits e = absurd (omega arith)
await_answer_answered (suc fuel) i n answers there low high waits e = elim (le_cases i n low) [
  | inl here ↦
      answered_now fuel i answers there (subst (λ (m : ℕ). answers m ≡ answer_of there) here e)
  | inr later ↦
      rw (waits i (omega arith) (omega arith), await_answer)
        (await_answer_answered fuel (suc i) n answers there later (omega arith)
          (λ k above below. waits k (omega arith) below) e)
]

-- A try succeeds exactly when the server accepts one of those that are left.
create_tries_iff :
    (left i : ℕ) (accepts : ℕ → Bool)
    → ((create_tries left accepts i).0 ≡ true)
      ↔ ((n : ℕ) × (i ≤ n) × (n < i + left) × (accepts n ≡ true))
unfolding create_tries
create_tries_iff zero i accepts = ((λ e. cc), (λ (n, low, high, a). absurd (omega arith)))
create_tries_iff (suc left) i accepts =
    let later = create_tries_iff left (suc i) accepts in
    elim (Bool-cases (accepts i)) [
      | inl now ↦ ((λ e. (i, omega arith, omega arith, now)), (λ h. simp now))
      | inr not_now ↦ (
        λ e.
            let (n, low, high, a) = later.0 (simp not_now at e) in (n, omega arith, omega arith, a),
        λ (n, low, high, a). simp not_now (elim (le_cases i n low) [
          | inl here ↦ absurd (cc (ap accepts here))
          | inr above ↦ later.1 (n, above, omega arith, a)
        ]),
      )
    ]

was_created_iff :
    (b : Bool)
    → (◌≡◌ {A = Option Registered} (some (created_or_failed b)) (some was_created)) ↔ (b ≡ true)
was_created_iff true = ((λ e. refl), (λ e. refl))
was_created_iff false = ((λ e. cc), (λ e. cc))

not_present : (b : Bool) → (created_or_failed b ≡ was_present) ↔ (false ≡ true)
not_present true = ((λ e. cc), (λ e. cc))
not_present false = ((λ e. cc), (λ e. cc))

-- The registration ends as soon as the server is reached, after any number of requests that did not
-- reach it, with a fuel above this number: with the resource found where it is there.
pub register_ends :
    (fuel n : ℕ) (answers : ℕ → GetAnswer) (accepts : ℕ → Bool) (there : Bool)
    → n < fuel
    → Waits answers 0 n
    → answers n ≡ answer_of there
    → (outcome : Registered) × (register_third_party_resource fuel answers accepts ≡ some outcome)
      × ((outcome ≡ was_present) ↔ (there ≡ true))
unfolding register_third_party_resource
register_ends fuel n answers accepts true h waits e = (
  was_present,
  rw
      (
        await_answer_answered fuel 0 n answers true (omega arith) (omega arith) waits e,
        register_third_party_resource,
      )
      refl,
  ((λ x. refl), (λ x. refl)),
)
register_ends fuel n answers accepts false h waits e = (
  created_or_failed (create_tries third_party_resource_retry_on_fail accepts 0).0,
  rw
      (
        await_answer_answered fuel 0 n answers false (omega arith) (omega arith) waits e,
        register_third_party_resource,
      )
      refl,
  not_present (create_tries third_party_resource_retry_on_fail accepts 0).0,
)

-- Where the server is reached and the resource is not there, the registration creates it exactly when
-- the server accepts one of the first five tries.
pub register_creates :
    (fuel n : ℕ) (answers : ℕ → GetAnswer) (accepts : ℕ → Bool)
    → n < fuel
    → Waits answers 0 n
    → answers n ≡ not_found
    → (register_third_party_resource fuel answers accepts ≡ some was_created)
      ↔ ((t : ℕ) × (t < 5) × (accepts t ≡ true))
unfolding register_third_party_resource
register_creates fuel n answers accepts h waits e =
    let tries = create_tries_iff 5 0 accepts in
    let outcome = was_created_iff (create_tries 5 accepts 0).0 in
    rw
      (
        await_answer_answered fuel 0 n answers false (omega arith) (omega arith) waits e,
        register_third_party_resource,
      )
      (
        λ x. let (t, low, high, a) = tries.0 (outcome.0 x) in (t, omega arith, a),
        λ (t, high, a). outcome.1 (tries.1 (t, omega arith, omega arith, a)),
      )
