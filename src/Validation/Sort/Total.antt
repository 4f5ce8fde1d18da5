-- ===== src/Validation/Sort/Total.antt =====
-- `visit` ends within its fuel; where it meets no cycle it leaves a sorted list, and where it fails
-- it names a dependency that is no step.
use kubernetes_workflow.Base.{
  ℕ, ◌<◌, String, List, [], ◌∷◌, ◌++◌, false, some, none, member, member_iff, member-head,
  member-tail, not-In_of_member, In, ◌≡◌, ◌⊎◌, inl, inr, refl, sym, ◌∙◌, ap, arith, Bool-cases,
}
use mathlib.Core.List.{append_assoc, reverse-cons}
use mathlib.Core.Logic.{⊎_elim}
use mathlib.Core.Option.{some-injective}
use kubernetes_workflow.GoMap.{lookup, keys}
use kubernetes_workflow.GoMap.Laws.{In-keys}
use kubernetes_workflow.Api.Types.{WorkflowStep}
use kubernetes_workflow.Validation.Field.{FieldPath, FieldError, not_found}
use kubernetes_workflow.Validation.Sort.{SortState, Steps, finish, visit, blanks}
use kubernetes_workflow.Validation.Sort.Rule.{VisitRule, Ensures, visit_ind}
use kubernetes_workflow.Validation.Sort.Free.{free, free-push_lt, remove-push, is_cyclic-unwind}
use kubernetes_workflow.Validation.Sort.Order.{DependsWithin, Inv, Wanted}

module _ (steps : Steps) (path : FieldPath) where
  -- The visit names a dependency that is no step.
  pub record Dangling (e : FieldError) : Type 0 where
    pub name : String
    pub named : e ≡ not_found path name
    pub absent : lookup name steps ≡ none
    pub wanted : Wanted steps name

  pub record Pre (fuel : ℕ) (n : String) (s : SortState) : Type 0 where
    pub straight : s.is_cyclic ≡ false
    pub fuelled : free (keys steps) s.temporary < fuel
    pub inv : Inv steps s
    pub wanted : Wanted steps n

  -- The permanent marks of `t` are those of `s` and others that were not on the stack.
  pub record Grows (s t : SortState) : Type 0 where
    pub kept : (x : String) → In x s.permanent → In x t.permanent
    pub fresh : (x : String) → In x t.permanent → In x s.permanent ⊎ (member x s.temporary ≡ false)

  pub record Visited (n : String) (s t : SortState) : Type 0 where
    pub inv : Inv steps t
    pub stack : t.temporary ≡ s.temporary
    pub marked : In n t.permanent
    pub grows : Grows s t

  abbrev pub Post : String → SortState → SortState → Type 0
  Post n s t = t.is_cyclic ≡ false → Visited n s t

  record Loop (fuel : ℕ) (n : String) (s : SortState) (step : WorkflowStep) (ms : List String)
      (t : SortState) : Type 0 where
    straight : t.is_cyclic ≡ false
    fuelled : free (keys steps) t.temporary < fuel
    inv : Inv steps t
    found : lookup n steps ≡ some step
    off : member n s.temporary ≡ false
    stack : t.temporary ≡ n ∷ s.temporary
    new : member n t.permanent ≡ false
    grows : Grows s t
    left : (m : String) → In m ms → In m step.dependencies
    resolved : (m : String) → In m step.dependencies → In m ms ⊎ In m t.permanent

  Grows-refl : (s : SortState) → Grows s s
  Grows-refl s = record { kept = λ x m. m; fresh = λ x m. inl m }

  -- No visit in the loop marks `n` as permanent, since `n` is on the stack.
  Loop-new :
      (fuel : ℕ) (n : String) (s : SortState) (step : WorkflowStep) (m : String) (ms : List String)
      (t u : SortState)
      → Loop fuel n s step (m ∷ ms) t
      → Visited m t u
      → member n u.permanent ≡ false
  Loop-new fuel n s step m ms t u h v = elim (Bool-cases (member n u.permanent)) [
    | inr absent ↦ absent
    | inl there ↦ absurd (elim (v.grows.fresh n ((member_iff n u.permanent).0 there)) [
      | inl old ↦ not-In_of_member n t.permanent h.new old
      | inr off ↦ cc (member-head n s.temporary, ap (member n) h.stack)
    ])
  ]

  Loop-deps :
      (fuel : ℕ) (n : String) (s : SortState) (step : WorkflowStep) (t : SortState)
      → Loop fuel n s step [] t
      → DependsWithin steps t.permanent n
  Loop-deps fuel n s step t h other found m i =
      let same : step ≡ other = some-injective _ _ (sym h.found ∙ found) in
      elim (h.resolved m (rw same i)) [ inl none_left ↦ absurd none_left | inr old ↦ old ]

  Loop-next :
      (fuel : ℕ) (n : String) (s : SortState) (step : WorkflowStep) (m : String) (ms : List String)
      (t u : SortState)
      → Loop fuel n s step (m ∷ ms) t
      → Visited m t u
      → u.is_cyclic ≡ false
      → Loop fuel n s step ms u
  Loop-next fuel n s step m ms t u h v straight = record {
    straight = straight;
    fuelled = rw v.stack h.fuelled;
    inv = v.inv;
    found = h.found;
    off = h.off;
    stack = v.stack ∙ h.stack;
    new = Loop-new fuel n s step m ms t u h v;
    grows = record {
      kept = λ x i. v.grows.kept x (h.grows.kept x i);
      fresh = λ x i. elim (v.grows.fresh x i) [
        | inl old ↦ h.grows.fresh x old
        | inr off ↦ inr (member-tail x n s.temporary (rw h.stack at off))
      ];
    };
    left = λ d i. h.left d (inr i);
    resolved = λ d i. elim (h.resolved d i) [
      | inl (inl e) ↦ inr (rw e v.marked)
      | inl (inr later) ↦ inl later
      | inr old ↦ inr (v.grows.kept d old)
    ];
  }

  Loop-done :
      (fuel : ℕ) (n : String) (s : SortState) (step : WorkflowStep) (t : SortState)
      → Loop fuel n s step [] t
      → Visited n s (finish n t)
  unfolding finish
  Loop-done fuel n s step t h = record {
    inv = record {
      ordered = (In-keys n steps h.found, h.new, Loop-deps fuel n s step t h, h.inv.ordered);
      aligned =
          ap (λ l. l ++ n ∷ []) h.inv.aligned
          ∙ append_assoc (blanks steps) _ _
          ∙ ap (λ l. blanks steps ++ l) (sym (reverse-cons n t.permanent));
    };
    stack = rw h.stack (remove-push n s.temporary h.off);
    marked = inl refl;
    grows = record {
      kept = λ x m. inr (h.grows.kept x m);
      fresh = λ x m. ⊎_elim (λ e. inr (rw e h.off)) (h.grows.fresh x) m;
    };
  }

  rule : VisitRule steps path Pre Post Dangling Loop
  rule = record {
    no_fuel = λ n s h. omega (arith, h.fuelled);
    missing =
        λ fuel n s h absent. record { name = n; named = refl; absent = absent; wanted = h.wanted };
    on_stack = λ fuel n s step h found on. λ e. absurd (cc);
    already = λ fuel n s step h found off old. λ e. record {
      inv = h.inv;
      stack = refl;
      marked = (member_iff n s.permanent).0 old;
      grows = Grows-refl s;
    };
    enter = λ fuel n s step h found off new. record {
      straight = h.straight;
      fuelled =
          omega
            (arith, free-push_lt (keys steps) s.temporary n (In-keys n steps found) off, h.fuelled);
      inv = record { ordered = h.inv.ordered; aligned = h.inv.aligned };
      found = found;
      off = off;
      stack = refl;
      new = new;
      grows = record { kept = λ x m. m; fresh = λ x m. inl m };
      left = λ m i. i;
      resolved = λ m i. inl i;
    };
    before = λ fuel n s step m ms t h. record {
      straight = h.straight;
      fuelled = h.fuelled;
      inv = h.inv;
      wanted = inr (n, step, h.found, h.left m (inl refl));
    };
    next = λ fuel n s step m ms t u h post straight.
        Loop-next fuel n s step m ms t u h (post straight) straight;
    closed = λ fuel n s step m ms t u h post cyclic. λ e. cc (is_cyclic-unwind n u);
    done = λ fuel n s step t h. λ e. Loop-done fuel n s step t h;
  }

  pub visit_Visited :
      (fuel : ℕ) (n : String) (s : SortState)
      → Pre fuel n s
      → Ensures (Post n s) Dangling (visit steps path fuel n s)
  visit_Visited fuel n s h = visit_ind rule fuel n s h
