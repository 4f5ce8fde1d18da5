-- ===== src/World/Monad.antt =====
-- The state that the controller's code changes, and actions on it.
use kubernetes_workflow.Base.{ℕ, suc, String, List, Option, some, none}
use kubernetes_workflow.Api.Meta.{Job}
use kubernetes_workflow.Api.Types.{Workflow}
use kubernetes_workflow.Expectations.{Expectations}

-- `asked` counts the questions to the outside; `store` is the informer's store of workflows by key;
-- `created` and `updates` are the jobs that the API server accepted and the workflows that were sent
-- to it, the last first; `events` are the objects for which a warning was recorded.
pub record World : Type 0 where
  pub asked : ℕ
  pub store : List (String × Workflow)
  pub expectations : Expectations
  pub created : List (String × Job)
  pub updates : List Workflow
  pub events : List String

pub data Result {ℓ} (A : Type ℓ) : Type ℓ where
  ok : A → Result A
  panicked : Result A

-- A panic keeps the changes made before it.
abbrev pub Action {ℓ} : Type ℓ → Type ℓ
Action A = World → Result A × World

abbrev pub pure {ℓ} : {A : Type ℓ} → A → Action A
pure a w = (ok a, w)

abbrev pub panic {ℓ} : {A : Type ℓ} → Action A
panic w = (panicked, w)

abbrev pub continue_with {ℓ κ} : {A : Type ℓ} {B : Type κ} → Result A → (A → Action B) → Action B
continue_with (ok a) f w = f a w
continue_with panicked f w = (panicked, w)

infixl 5 ◌>>=◌ ◌>>◌
abbrev pub ◌>>=◌ {ℓ κ} : {A : Type ℓ} {B : Type κ} → Action A → (A → Action B) → Action B
◌>>=◌ m f w = let (r, w') = m w in continue_with r f w'

abbrev pub ◌>>◌ {ℓ} : {B : Type ℓ} → Action (Unit {0}) → Action B → Action B
m >> k = m >>= λ _. k

-- The next question to the outside.
abbrev pub ask {ℓ} : {A : Type ℓ} → (ℕ → A) → Action A
ask answer w = (ok (answer w.asked), record w { asked = suc w.asked })

abbrev pub modify : (World → World) → Action (Unit {0})
modify f w = (ok tt, f w)

abbrev pub read {ℓ} : {A : Type ℓ} → (World → A) → Action A
read f w = (ok (f w), w)

-- A value that a panic may take the place of.
abbrev pub or_panic {ℓ} : {A : Type ℓ} → Option A → Action A
or_panic (some a) w = (ok a, w)
or_panic none w = (panicked, w)
