-- ===== src/World/Runs.antt =====
-- What an action leaves behind: a postcondition for a return and one for a panic.
use kubernetes_workflow.Base.{◌≡◌, ap}
use kubernetes_workflow.World.Monad.{World, Result, ok, panicked, Action, continue_with, ◌>>=◌}

abbrev pub Ends {ℓ} :
    {A : Type ℓ} → (A → World → Type 0) → (World → Type 0) → Result A → World → Type 0
Ends Q E (ok a) w = Q a w
Ends Q E panicked w = E w

-- A return satisfies `Q`, a panic `E`.
abbrev pub Runs {ℓ} :
    {A : Type ℓ} → (A → World → Type 0) → (World → Type 0) → Result A × World → Type 0
Runs Q E r = Ends Q E r.0 r.1

module _ {ℓ κ} {A : Type ℓ} {B : Type κ} where
  -- A bind goes on with what was returned.
  pub bind-ok :
      (m : Action A) (f : A → Action B) (w : World) {a : A} {w' : World}
      → m w ≡ (ok a, w')
      → (m >>= f) w ≡ f a w'
  bind-ok m f w e = ap (λ (r : Result A × World). continue_with r.0 f r.1) e

  Ends-continue :
      (Q : A → World → Type 0) (R : B → World → Type 0) (E : World → Type 0) (r : Result A)
      (w : World) (f : A → Action B)
      → Ends Q E r w
      → ((a : A) (w' : World) → Q a w' → Runs R E (f a w'))
      → Runs R E (continue_with r f w)
  Ends-continue Q R E (ok a) w f h k = k a w h
  Ends-continue Q R E panicked w f h k = h

  -- The rule of a bind.
  pub Runs-bind :
      (Q : A → World → Type 0) (R : B → World → Type 0) (E : World → Type 0) (m : Action A)
      (f : A → Action B) (w : World)
      → Runs Q E (m w)
      → ((a : A) (w' : World) → Q a w' → Runs R E (f a w'))
      → Runs R E ((m >>= f) w)
  Runs-bind Q R E m f w h k = Ends-continue Q R E (m w).0 (m w).1 f h k

module _ {ℓ} {A : Type ℓ} where
  Ends-map :
      (Q Q' : A → World → Type 0) (E E' : World → Type 0) (r : Result A) (w : World)
      → Ends Q E r w
      → ((a : A) (w' : World) → Q a w' → Q' a w')
      → ((w' : World) → E w' → E' w')
      → Ends Q' E' r w
  Ends-map Q Q' E E' (ok a) w h q e = q a w h
  Ends-map Q Q' E E' panicked w h q e = e w h

  -- A weaker postcondition.
  pub Runs-map :
      (Q Q' : A → World → Type 0) (E E' : World → Type 0) (r : Result A × World)
      → Runs Q E r
      → ((a : A) (w' : World) → Q a w' → Q' a w')
      → ((w' : World) → E w' → E' w')
      → Runs Q' E' r
  Runs-map Q Q' E E' r h q e = Ends-map Q Q' E E' r.0 r.1 h q e

  Ends-both :
      (Q Q' : A → World → Type 0) (E E' : World → Type 0) (r : Result A) (w : World)
      → Ends Q E r w
      → Ends Q' E' r w
      → Ends (λ a v. Q a v × Q' a v) (λ v. E v × E' v) r w
  Ends-both Q Q' E E' (ok a) w h k = (h, k)
  Ends-both Q Q' E E' panicked w h k = (h, k)

  -- Two postconditions of one action.
  pub Runs-both :
      (Q Q' : A → World → Type 0) (E E' : World → Type 0) (r : Result A × World)
      → Runs Q E r
      → Runs Q' E' r
      → Runs (λ a w. Q a w × Q' a w) (λ w. E w × E' w) r
  Runs-both Q Q' E E' r h k = Ends-both Q Q' E E' r.0 r.1 h k
