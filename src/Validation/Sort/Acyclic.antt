-- ===== src/Validation/Sort/Acyclic.antt =====
-- Where the dependencies can be ranked, `visit` meets no cycle.
use kubernetes_workflow.Base.{
  ℕ, ◌<◌, String, List, ◌∷◌, false, some, member, member_iff, In, ◌≡◌, inl, inr, refl, ◌∙◌, arith,
}
use mathlib.Core.Logic.{⊎_elim}
use kubernetes_workflow.GoMap.{lookup, keys}
use kubernetes_workflow.GoMap.Laws.{In-keys}
use kubernetes_workflow.Api.Types.{WorkflowStep}
use kubernetes_workflow.Validation.Field.{FieldPath}
use kubernetes_workflow.Validation.Sort.{SortState, Steps, finish, visit}
use kubernetes_workflow.Validation.Sort.Rule.{VisitRule, Ensures, visit_ind}
use kubernetes_workflow.Validation.Sort.Free.{free, free-push_lt, remove-push}

-- Each step ranks above its dependencies.
abbrev pub Ranks : Steps → (String → ℕ) → Type 0
Ranks steps rank =
    (n : String) (step : WorkflowStep)
    → lookup n steps ≡ some step
    → (m : String) → In m step.dependencies
    → rank m < rank n

module _ (steps : Steps) (path : FieldPath) (rank : String → ℕ) (ranks : Ranks steps rank) where
  pub record Pre (fuel : ℕ) (n : String) (s : SortState) : Type 0 where
    pub straight : s.is_cyclic ≡ false
    pub fuelled : free (keys steps) s.temporary < fuel
    pub above : (x : String) → In x s.temporary → rank n < rank x

  pub record Straight (n : String) (s t : SortState) : Type 0 where
    pub straight : t.is_cyclic ≡ false
    pub stack : t.temporary ≡ s.temporary

  record Loop (fuel : ℕ) (n : String) (s : SortState) (step : WorkflowStep) (ms : List String)
      (t : SortState) : Type 0 where
    straight : t.is_cyclic ≡ false
    fuelled : free (keys steps) t.temporary < fuel
    found : lookup n steps ≡ some step
    off : member n s.temporary ≡ false
    stack : t.temporary ≡ n ∷ s.temporary
    left : (m : String) → In m ms → In m step.dependencies
    above : (x : String) → In x s.temporary → rank n < rank x

  Loop-above :
      (fuel : ℕ) (n : String) (s : SortState) (step : WorkflowStep) (m : String) (ms : List String)
      (t : SortState)
      → Loop fuel n s step (m ∷ ms) t
      → (x : String) → In x t.temporary
      → rank m < rank x
  Loop-above fuel n s step m ms t h x i =
      let below = ranks n step h.found m (h.left m (inl refl)) in
      ⊎_elim (λ e. rw e below) (λ deep. omega (arith, below, h.above x deep)) (rw h.stack at i)

  rule : VisitRule steps path Pre Straight (λ e. Unit) Loop
  unfolding finish
  rule = record {
    no_fuel = λ n s h. omega (arith, h.fuelled);
    missing = λ fuel n s h absent. tt;
    on_stack = λ fuel n s step h found on.
        absurd (omega (arith, h.above n ((member_iff n s.temporary).0 on)));
    already = λ fuel n s step h found off old. record { straight = h.straight; stack = refl };
    enter = λ fuel n s step h found off new. record {
      straight = h.straight;
      fuelled =
          omega
            (arith, free-push_lt (keys steps) s.temporary n (In-keys n steps found) off, h.fuelled);
      found = found;
      off = off;
      stack = refl;
      left = λ m i. i;
      above = h.above;
    };
    before = λ fuel n s step m ms t h. record {
      straight = h.straight;
      fuelled = h.fuelled;
      above = Loop-above fuel n s step m ms t h;
    };
    next = λ fuel n s step m ms t u h post straight. record {
      straight = straight;
      fuelled = rw post.stack h.fuelled;
      found = h.found;
      off = h.off;
      stack = post.stack ∙ h.stack;
      left = λ d i. h.left d (inr i);
      above = h.above;
    };
    closed = λ fuel n s step m ms t u h post cyclic. absurd (cc post.straight);
    done = λ fuel n s step t h. record {
      straight = h.straight;
      stack = rw h.stack (remove-push n s.temporary h.off);
    };
  }

  pub visit-Straight :
      (fuel : ℕ) (n : String) (s : SortState)
      → Pre fuel n s
      → Ensures (Straight n s) (λ e. Unit) (visit steps path fuel n s)
  visit-Straight fuel n s h = visit_ind rule fuel n s h
