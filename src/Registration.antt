-- ===== src/Registration.antt =====
-- main.go: `registerThirdPartyResource`, with the answers of the server by the number of the request.
pub mod Laws
use kubernetes_workflow.Base.{ℕ, zero, suc, Bool, true, false, Option, some, none, if◌then◌else◌}

abbrev pub third_party_resource_retry_on_fail : ℕ
third_party_resource_retry_on_fail = 5

-- The answers to a `Get`: no error, a `StatusError` whose reason is NotFound, another error.
pub data GetAnswer : Type 0 where
  present not_found unreachable : GetAnswer

-- How it ends: the resource was there, it was created, or no try to create it succeeded.
pub data Registered : Type 0 where
  was_present was_created create_failed : Registered

-- The loop over the `Get`s, from the request `i` on, of which it makes `fuel` at most: whether the
-- resource is there. The code has no bound.
unfoldable pub await_answer : (fuel : ℕ) → (ℕ → GetAnswer) → ℕ → Option Bool
await_answer zero answers i = none
await_answer (suc fuel) answers i =
    let rest = await_answer fuel answers (suc i) in
    elim (answers i) [ present ↦ some true | not_found ↦ some false | unreachable ↦ rest ]

-- The loop over the `Create`s, with `left` tries left: whether the resource was created, and how many
-- tries were made when it ended.
unfoldable pub create_tries : (left : ℕ) → (ℕ → Bool) → ℕ → Bool × ℕ
create_tries zero accepts i = (false, i)
create_tries (suc left) accepts i =
    let rest = create_tries left accepts (suc i) in if accepts i then (true, suc i) else rest

abbrev pub created_or_failed : Bool → Registered
created_or_failed true = was_created
created_or_failed false = create_failed

-- `registerThirdPartyResource`.
unfoldable pub register_third_party_resource :
    (fuel : ℕ) → (ℕ → GetAnswer) → (ℕ → Bool) → Option Registered
register_third_party_resource fuel answers accepts = elim (await_answer fuel answers 0) [
  | none ↦ none
  | some true ↦ some was_present
  | some false ↦
      some (created_or_failed (create_tries third_party_resource_retry_on_fail accepts 0).0)
]
