-- ===== src/Validation/Sort/Rule.antt =====
-- A proof rule for `visit`: what to show of a precondition, a postcondition and a loop invariant.
use kubernetes_workflow.Base.{
  ℕ, zero, suc, String, List, [], ◌∷◌, true, false, some, none, member, ◌≡◌, refl, Option-cases,
  if_ind, ◌⊎◌, inl, inr,
}
use kubernetes_workflow.GoMap.{lookup}
use kubernetes_workflow.Api.Types.{WorkflowStep}
use kubernetes_workflow.Validation.Field.{FieldPath, FieldError, not_found}
use kubernetes_workflow.Validation.Sort.{
  SortState, Visit, returned, failed, out_of_fuel, Steps, unwind, finish, visit_deps, visit,
}

-- The call ends, with a state that satisfies `Q` or an error that satisfies `R`.
abbrev pub Ensures : {A : Type 0} → (A → Type 0) → (FieldError → Type 0) → Visit A → Type 0
Ensures Q R (returned a) = Q a
Ensures Q R (failed e) = R e
Ensures Q R out_of_fuel = ⊥

abbrev pub marking : String → SortState → SortState
marking n s = record s { temporary = n ∷ s.temporary }

abbrev pub closing : String → SortState → SortState
closing n s = record s { is_cyclic = true; cycle_start = n }

-- `Pre` holds before a visit with so much fuel, `Post` relates the states before and after it, and
-- `Loop fuel n s step ms t` holds in the loop of the visit of `n` that began in `s`, with `ms` left.
pub record VisitRule (steps : Steps) (path : FieldPath) (Pre : ℕ → String → SortState → Type 0)
    (Post : String → SortState → SortState → Type 0) (R : FieldError → Type 0)
    (Loop : ℕ → String → SortState → WorkflowStep → List String → SortState → Type 0) : Type 0 where
  pub no_fuel : (n : String) (s : SortState) → Pre zero n s → ⊥
  pub missing :
      (fuel : ℕ) (n : String) (s : SortState)
      → Pre (suc fuel) n s
      → lookup n steps ≡ none
      → R (not_found path n)
  pub on_stack :
      (fuel : ℕ) (n : String) (s : SortState) (step : WorkflowStep)
      → Pre (suc fuel) n s
      → lookup n steps ≡ some step
      → member n s.temporary ≡ true
      → Post n s (closing n s)
  pub already :
      (fuel : ℕ) (n : String) (s : SortState) (step : WorkflowStep)
      → Pre (suc fuel) n s
      → lookup n steps ≡ some step
      → member n s.temporary ≡ false
      → member n s.permanent ≡ true
      → Post n s s
  pub enter :
      (fuel : ℕ) (n : String) (s : SortState) (step : WorkflowStep)
      → Pre (suc fuel) n s
      → lookup n steps ≡ some step
      → member n s.temporary ≡ false
      → member n s.permanent ≡ false
      → Loop fuel n s step step.dependencies (marking n s)
  pub before :
      (fuel : ℕ) (n : String) (s : SortState) (step : WorkflowStep) (m : String) (ms : List String)
      (t : SortState)
      → Loop fuel n s step (m ∷ ms) t
      → Pre fuel m t
  pub next :
      (fuel : ℕ) (n : String) (s : SortState) (step : WorkflowStep) (m : String) (ms : List String)
      (t u : SortState)
      → Loop fuel n s step (m ∷ ms) t
      → Post m t u
      → u.is_cyclic ≡ false
      → Loop fuel n s step ms u
  pub closed :
      (fuel : ℕ) (n : String) (s : SortState) (step : WorkflowStep) (m : String) (ms : List String)
      (t u : SortState)
      → Loop fuel n s step (m ∷ ms) t
      → Post m t u
      → u.is_cyclic ≡ true
      → Post n s (unwind n u)
  pub done :
      (fuel : ℕ) (n : String) (s : SortState) (step : WorkflowStep) (t : SortState)
      → Loop fuel n s step [] t
      → Post n s (finish n t)

pub Visit-cases :
    {A : Type 0} (Q : A → Type 0) (R : FieldError → Type 0) (r : Visit A)
    → Ensures Q R r
    → ((a : A) × (r ≡ returned a) × Q a) ⊎ ((e : FieldError) × (r ≡ failed e) × R e)
Visit-cases Q R (returned a) h = inl (a, refl, h)
Visit-cases Q R (failed e) h = inr (e, refl, h)
Visit-cases Q R out_of_fuel h = absurd h

module _ {steps : Steps} {path : FieldPath} {Pre : ℕ → String → SortState → Type 0}
    {Post : String → SortState → SortState → Type 0} {R : FieldError → Type 0}
    {Loop : ℕ → String → SortState → WorkflowStep → List String → SortState → Type 0}
    (rule : VisitRule steps path Pre Post R Loop) where
  open rule use {no_fuel, missing, on_stack, already, enter, before, next, closed, done}

  visit_deps_ind :
      (fuel : ℕ)
      → ((m : String) (t : SortState)
          → Pre fuel m t
          → Ensures (Post m t) R (visit steps path fuel m t))
      → (n : String) (s : SortState) (step : WorkflowStep) (ms : List String) (t : SortState)
      → Loop fuel n s step ms t
      → Ensures (Post n s) R (visit_deps (visit steps path fuel) n ms t)
  unfolding visit_deps
  visit_deps_ind fuel v n s step [] t h = done fuel n s step t h
  visit_deps_ind fuel v n s step (m ∷ ms) t h =
      elim (Visit-cases (Post m t) R _ (v m t (before fuel n s step m ms t h))) [
        | inr (e, eq, r) ↦ rw (eq, visit_deps) r
        | inl (u, eq, post) ↦
            rw (eq, visit_deps)
              (if_ind (Ensures (Post n s) R) u.is_cyclic (closed fuel n s step m ms t u h post)
                λ straight.
                  visit_deps_ind fuel v n s step ms u (next fuel n s step m ms t u h post straight))
      ]

  pub visit_ind :
      (fuel : ℕ) (n : String) (s : SortState)
      → Pre fuel n s
      → Ensures (Post n s) R (visit steps path fuel n s)
  unfolding visit
  visit_ind zero n s h = no_fuel n s h
  visit_ind (suc fuel) n s h = elim (Option-cases (lookup n steps)) [
    | inl absent ↦ rw (absent, visit) (missing fuel n s h absent)
    | inr (step, found) ↦
        rw (found, visit)
          (if_ind (Ensures (Post n s) R) (member n s.temporary) (on_stack fuel n s step h found)
            λ off.
              if_ind (Ensures (Post n s) R) (member n s.permanent)
                (already fuel n s step h found off)
                λ new.
                  visit_deps_ind fuel (visit_ind fuel) n s step step.dependencies (marking n s)
                    (enter fuel n s step h found off new))
  ]
