-- ===== src/Validation/Sort/Cycle.antt =====
-- The cycle that the sort reports is one.
use kubernetes_workflow.Base.{
  ℕ, ◌<◌, String, List, [], ◌∷◌, ◌++◌, true, false, some, member, member_iff, In, ◌≡◌, ◌≢◌, inl,
  inr, refl, sym, ◌∙◌, arith, ◌==◌, eq_iff, if_ind, subst,
}
use mathlib.Core.Logic.{⊎_elim}
use kubernetes_workflow.GoMap.{lookup, keys}
use kubernetes_workflow.GoMap.Laws.{In-keys}
use kubernetes_workflow.Api.Types.{WorkflowStep}
use kubernetes_workflow.Validation.Field.{FieldPath}
use kubernetes_workflow.Validation.Sort.{SortState, Steps, unwind, finish, visit}
use kubernetes_workflow.Validation.Sort.Rule.{VisitRule, Ensures, visit_ind}
use kubernetes_workflow.Validation.Sort.Free.{free, free-push_lt, remove-push, is_cyclic-unwind}

-- `n` is a step that depends on `m`.
abbrev pub DependsOn : Steps → String → String → Type 0
DependsOn steps n m = (step : WorkflowStep) × (lookup n steps ≡ some step) × In m step.dependencies

-- `Trail steps c ds m`: the first of `ds` depends on `c`, each later one on the one before it, and
-- the last is `m`; where `ds` is empty, `m` is `c`.
pub data Trail (steps : Steps) (c : String) : List String → String → Type 0 where
  here : Trail steps c [] c
  snoc :
      {ds : List String} {m : String} (n : String)
      → Trail steps c ds m
      → DependsOn steps n m
      → Trail steps c (ds ++ n ∷ []) n

-- A list of steps, each depending on the one before it, and the first on the last.
pub record IsCycle (steps : Steps) (ds : List String) : Type 0 where
  pub origin : String
  pub trail : Trail steps origin ds origin
  pub some_step : ds ≢ []

-- What a visit of `n` over the stack `stack` leaves behind where it meets a cycle: either the start
-- of the cycle is still on the stack, or the cycle is complete.
pub data Unwinding (steps : Steps) (stack : List String) (n : String) (t : SortState) : Type 0 where
  opened :
      In t.cycle_start stack
      → t.cycle_start ≢ ""
      → Trail steps t.cycle_start t.cycle n
      → Unwinding steps stack n t
  complete : t.cycle_start ≡ "" → IsCycle steps t.cycle → Unwinding steps stack n t

snoc-ne-nil : (ds : List String) (n : String) → ds ++ n ∷ [] ≢ []
snoc-ne-nil [] n e = cc
snoc-ne-nil (d ∷ ds) n e = cc

module _ (steps : Steps) (path : FieldPath)
    (named : (n : String) → In n (keys steps) → n ≢ "") where
  pub record Pre (fuel : ℕ) (n : String) (s : SortState) : Type 0 where
    pub straight : s.is_cyclic ≡ false
    pub fuelled : free (keys steps) s.temporary < fuel
    pub blank : s.cycle ≡ []

  pub record Post (n : String) (s t : SortState) : Type 0 where
    pub straight : t.is_cyclic ≡ false → (t.temporary ≡ s.temporary) × (t.cycle ≡ [])
    pub cyclic : t.is_cyclic ≡ true → Unwinding steps s.temporary n t

  record Loop (fuel : ℕ) (n : String) (s : SortState) (step : WorkflowStep) (ms : List String)
      (t : SortState) : Type 0 where
    straight : t.is_cyclic ≡ false
    fuelled : free (keys steps) t.temporary < fuel
    found : lookup n steps ≡ some step
    off : member n s.temporary ≡ false
    stack : t.temporary ≡ n ∷ s.temporary
    left : (m : String) → In m ms → In m step.dependencies
    blank : t.cycle ≡ []

  -- One frame more is unwound.
  unwind-Unwinding :
      (stack : List String) (n m : String) (t : SortState)
      → DependsOn steps n m
      → Unwinding steps (n ∷ stack) m t
      → Unwinding steps stack n (unwind n t)
  unfolding unwind
  unwind-Unwinding stack n m t dep (complete e c) =
      if_ind (Unwinding steps stack n) (t.cycle_start == "") (λ _. complete e c)
        (λ no_start. cc ((eq_iff t.cycle_start "").1 e))
  unwind-Unwinding stack n m t dep (opened i ne trail) =
      if_ind (Unwinding steps stack n) (t.cycle_start == "")
        (λ e. absurd (ne ((eq_iff t.cycle_start "").0 e)))
        λ _.
          if_ind
            (λ c. Unwinding steps stack n (record t { cycle = t.cycle ++ n ∷ []; cycle_start = c }))
            (n == t.cycle_start)
            (λ same. complete refl (record {
              origin = t.cycle_start;
              trail =
                  subst (Trail steps t.cycle_start (t.cycle ++ n ∷ []))
                    ((eq_iff n t.cycle_start).0 same) (snoc n trail dep);
              some_step = snoc-ne-nil t.cycle n;
            }))
            (λ other.
              opened (⊎_elim (λ e. cc ((eq_iff n t.cycle_start).1 (sym e))) (λ deep. deep) i) ne
                (snoc n trail dep))

  rule : VisitRule steps path Pre Post (λ e. Unit) Loop
  unfolding finish
  rule = record {
    no_fuel = λ n s h. omega (arith, h.fuelled);
    missing = λ fuel n s h absent. tt;
    on_stack = λ fuel n s step h found on. record {
      straight = λ e. absurd (cc);
      cyclic = λ e.
          opened ((member_iff n s.temporary).0 on) (named n (In-keys n steps found))
            (rw h.blank here);
    };
    already = λ fuel n s step h found off old. record {
      straight = λ e. (refl, h.blank);
      cyclic = λ e. absurd (cc h.straight);
    };
    enter = λ fuel n s step h found off new. record {
      straight = h.straight;
      fuelled =
          omega
            (arith, free-push_lt (keys steps) s.temporary n (In-keys n steps found) off, h.fuelled);
      found = found;
      off = off;
      stack = refl;
      left = λ m i. i;
      blank = h.blank;
    };
    before = λ fuel n s step m ms t h. record {
      straight = h.straight;
      fuelled = h.fuelled;
      blank = h.blank;
    };
    next = λ fuel n s step m ms t u h post straight. record {
      straight = straight;
      fuelled = rw (post.straight straight).0 h.fuelled;
      found = h.found;
      off = h.off;
      stack = (post.straight straight).0 ∙ h.stack;
      left = λ d i. h.left d (inr i);
      blank = (post.straight straight).1;
    };
    closed = λ fuel n s step m ms t u h post cyclic. record {
      straight = λ e. absurd (cc (is_cyclic-unwind n u));
      cyclic = λ e.
          unwind-Unwinding s.temporary n m u (step, h.found, h.left m (inl refl))
            (rw h.stack at (post.cyclic cyclic));
    };
    done = λ fuel n s step t h. record {
      straight = λ e. (rw h.stack (remove-push n s.temporary h.off), h.blank);
      cyclic = λ e. absurd (cc h.straight);
    };
  }

  pub visit-Post :
      (fuel : ℕ) (n : String) (s : SortState)
      → Pre fuel n s
      → Ensures (Post n s) (λ e. Unit) (visit steps path fuel n s)
  visit-Post fuel n s h = visit_ind rule fuel n s h
