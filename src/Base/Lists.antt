-- ===== src/Base/Lists.antt =====
-- Lists measured by native numbers, membership by recursion, and a Boolean membership test.
use Prim.Native.Nat.{ℕ, suc, ◌+◌}
use Prim.Native.String.{String}
use mathlib.Core.Path.{◌≡◌, refl}
use mathlib.Core.Logic.{◌↔◌, ◌⊎◌, inl, inr}
use mathlib.Core.Bool.{Bool, true, false, ◌||◌}
use mathlib.Core.List.{List, [], ◌∷◌, ◌++◌}
use native.Mathlib.Omega.{arith}
use text.Mathlib.Text.{◌==◌}
use text.Mathlib.TextEquality.{eq_iff}

module _ {ℓ} {A : Type ℓ} where
  abbrev pub length : List A → ℕ
  length [] = 0
  length (x ∷ xs) = suc (length xs)

  abbrev pub replicate : ℕ → A → List A
  replicate ℕ.zero a = []
  replicate (suc n) a = a ∷ replicate n a

  pub length-append : (xs ys : List A) → length (xs ++ ys) ≡ length xs + length ys
  length-append [] ys = omega arith
  length-append (x ∷ xs) ys = omega (arith, length-append xs ys)

  -- Every element satisfies the predicate.
  abbrev pub All {κ} : (A → Type κ) → List A → Type κ
  All P [] = Unit
  All P (x ∷ xs) = P x × All P xs

-- What every element of two lists satisfies, every element of the lists in a row does.
module _ {ℓ κ} {A : Type ℓ} (Holds : A → Type κ) where
  pub All-append :
      (front back : List A) → All Holds front → All Holds back → All Holds (front ++ back)
  All-append [] back _ later = later
  All-append (a ∷ front) back (now, soon) later = (now, All-append front back soon later)

module _ {A : Type 0} where
  -- `a` stands in the list: the position is kept.
  abbrev pub In : A → List A → Type 0
  In a [] = ⊥
  In a (x ∷ xs) = (a ≡ x) ⊎ In a xs

  pub In-append_left : (a : A) (xs ys : List A) → In a xs → In a (xs ++ ys)
  In-append_left a [] ys h = absurd h
  In-append_left a (x ∷ xs) ys (inl e) = inl e
  In-append_left a (x ∷ xs) ys (inr m) = inr (In-append_left a xs ys m)

  pub In-append_right : (a : A) (xs ys : List A) → In a ys → In a (xs ++ ys)
  In-append_right a [] ys h = h
  In-append_right a (x ∷ xs) ys h = inr (In-append_right a xs ys h)

  pub In-append_cases : (a : A) (xs ys : List A) → In a (xs ++ ys) → In a xs ⊎ In a ys
  In-append_cases a [] ys h = inr h
  In-append_cases a (x ∷ xs) ys (inl e) = inl (inl e)
  In-append_cases a (x ∷ xs) ys (inr m) = elim (In-append_cases a xs ys m) [
    | inl l ↦ inl (inr l)
    | inr r ↦ inr r
  ]

-- The test whether a text stands in a list of texts.
unfoldable pub member : String → List String → Bool
member s [] = false
member s (x ∷ xs) = s == x || member s xs

pub member_iff : (s : String) (xs : List String) → (member s xs ≡ true) ↔ In s xs
unfolding member
member_iff s [] = ((λ h. cc), (λ h. absurd h))
member_iff s (x ∷ xs) = ground (arith, eq_iff s x, member_iff s xs)

pub member-head : (s : String) (xs : List String) → member s (s ∷ xs) ≡ true
member-head s xs = (member_iff s (s ∷ xs)).1 (inl refl)

pub member-tail :
    (s x : String) (xs : List String) → member s (x ∷ xs) ≡ false → member s xs ≡ false
unfolding member
member-tail s x xs h = ground arith

pub not-In_of_member : (s : String) (xs : List String) → member s xs ≡ false → In s xs → ⊥
not-In_of_member s xs h m = cc ((member_iff s xs).1 m)
