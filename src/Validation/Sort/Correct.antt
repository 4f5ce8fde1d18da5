-- ===== src/Validation/Sort/Correct.antt =====
-- What `topologicalSort` accepts, what it returns and what it reports.
use mathlib.Core.Logic.{⊎_elim}
use kubernetes_workflow.Base.{
  ℕ, suc, ◌≤◌, ◌<◌, String, List, [], ◌∷◌, ◌++◌, some, none, In, length, ◌≡◌, ◌↔◌, ◌⊎◌, inl, inr,
  arith, ◌≢◌, reverse, eq_iff, ◌==◌, if◌then◌else◌, not-In_of_member, subst,
}
use kubernetes_workflow.GoMap.{lookup, keys}
use kubernetes_workflow.GoMap.Laws.{In-keys, lookup_of_In}
use kubernetes_workflow.Api.Types.{WorkflowStep}
use kubernetes_workflow.Validation.Field.{
  FieldPath, FieldError, not_found, forbidden, detected_cycle,
}
use kubernetes_workflow.Validation.Sort.{
  SortState, Visit, returned, failed, out_of_fuel, Steps, visit_keys, start, enough, blanks,
  sorted_of, topological_sort,
}
use kubernetes_workflow.Validation.Sort.Rule.{Ensures, Visit-cases}
use kubernetes_workflow.Validation.Sort.Order.{DependsWithin, IsOrdered, Inv}
use kubernetes_workflow.Validation.Sort.Total.{Dangling}
use kubernetes_workflow.Validation.Sort.Acyclic.{Ranks}
use kubernetes_workflow.Validation.Sort.Cycle.{IsCycle, DependsOn}
use kubernetes_workflow.Validation.Sort.Keys.{
  KeysDone, Between, BetweenBlank, Genuine, visit_keys_Done, visit_keys-Ranks, visit_keys_IsCycle,
}

-- Every dependency of a step is a step.
abbrev pub IsClosed : Steps → Type 0
IsClosed steps =
    (k : String) (step : WorkflowStep)
    → lookup k steps ≡ some step
    → (m : String) → In m step.dependencies
    → In m (keys steps)

-- The result of the sort: as many empty texts as there are steps, and then every step, once, behind
-- its dependencies. `back` is the steps from the last to the first.
pub record Sorted (steps : Steps) (sorted : List String) : Type 0 where
  pub back : List String
  pub split : sorted ≡ blanks steps ++ reverse back
  pub ordered : IsOrdered steps back
  pub covers : (k : String) → In k (keys steps) → In k back

-- The place of a name in the list, counted from the list's end.
rank_of : List String → String → ℕ
rank_of [] x = 0
rank_of (n ∷ rest) x = if x == n then suc (length rest) else rank_of rest x

rank_of-le : (l : List String) (x : String) → rank_of l x ≤ length l
unfolding rank_of
rank_of-le [] x = omega arith
rank_of-le (n ∷ rest) x = ground (arith, rank_of-le rest x)

IsOrdered-deps :
    (steps : Steps) (l : List String) (n : String)
    → IsOrdered steps l
    → In n l
    → DependsWithin steps l n
IsOrdered-deps steps [] n h i = absurd i
IsOrdered-deps steps (x ∷ rest) n h (inl e) = λ step found m d. inr (h.2 step (rw e at found) m d)
IsOrdered-deps steps (x ∷ rest) n h (inr i) =
    λ step found m d. inr (IsOrdered-deps steps rest n h.3 i step found m d)

rank_of-lt :
    (steps : Steps) (l : List String) (n : String)
    → IsOrdered steps l
    → In n l
    → (step : WorkflowStep) → lookup n steps ≡ some step
    → (m : String) → In m step.dependencies
    → rank_of l m < rank_of l n
unfolding rank_of
rank_of-lt steps [] n h i step found m d = absurd i
rank_of-lt steps (x ∷ rest) n h (inl e) step found m d =
    let inside : In m rest = h.2 step (rw e at found) m d in
    ground (
      arith,
      eq_iff n x,
      eq_iff m x,
      rank_of-le rest m,
      not-In_of_member x rest h.1,
      subst (λ y. In y rest) {x = m} {y = x},
      inside,
    )
rank_of-lt steps (x ∷ rest) n h (inr i) step found m d =
    let inside : In m rest = IsOrdered-deps steps rest n h.3 i step found m d in
    ground (
      arith,
      eq_iff n x,
      eq_iff m x,
      rank_of-lt steps rest n h.3 i step found m d,
      not-In_of_member x rest h.1,
      subst (λ y. In y rest) {x = m} {y = x},
      subst (λ y. In y rest) {x = n} {y = x},
      inside,
      i,
    )

IsOrdered-keys :
    (steps : Steps) (l : List String) (n : String) → IsOrdered steps l → In n l → In n (keys steps)
IsOrdered-keys steps [] n h i = absurd i
IsOrdered-keys steps (x ∷ rest) n h (inl e) = rw e h.0
IsOrdered-keys steps (x ∷ rest) n h (inr i) = IsOrdered-keys steps rest n h.3 i

-- `sort.Strings` keeps the elements of its list.
abbrev pub KeepsElements : (List String → List String) → Type 0
KeepsElements sort = (xs : List String) (x : String) → In x (sort xs) ↔ In x xs

Ensures-sorted_of :
    (Q : SortState → Type 0) (Q' : List String → Type 0) (R : FieldError → Type 0)
    (r : Visit SortState)
    → ((s : SortState) → Q s → Q' s.sorted)
    → Ensures Q R r
    → Ensures Q' R (sorted_of r)
Ensures-sorted_of Q Q' R (returned s) f h = f s h
Ensures-sorted_of Q Q' R (failed e) f h = h
Ensures-sorted_of Q Q' R out_of_fuel f h = absurd h

module _ (steps : Steps) (path : FieldPath) where
  -- A dependency that is no step, with a step that has it.
  pub record Missing (e : FieldError) : Type 0 where
    pub name : String
    pub step : String
    pub named : e ≡ not_found path name
    pub absent : lookup name steps ≡ none
    pub wanted : DependsOn steps step name

  -- A report of a cycle, which is one.
  pub record Cyclic (e : FieldError) : Type 0 where
    pub cycle : List String
    pub named : e ≡ forbidden path (detected_cycle cycle)
    pub genuine : IsCycle steps cycle

  Missing-of : (e : FieldError) → Dangling steps path e → Missing e
  Missing-of e d = elim d.wanted [
    | inl key ↦ let (v, found) = lookup_of_In d.name steps key in absurd (cc d.absent)
    | inr (k, step, found, m) ↦ record {
      name = d.name;
      step = k;
      named = d.named;
      absent = d.absent;
      wanted = (step, found, m);
    }
  ]

  not-Missing : IsClosed steps → (e : FieldError) → Missing e → ⊥
  not-Missing closed e d =
      let (step, found, m) = d.wanted in
      let (v, there) = lookup_of_In d.name steps (closed d.step step found d.name m) in cc d.absent

  IsClosed-of : (l : List String) → Sorted steps l → IsClosed steps
  IsClosed-of l h k step found m d =
      IsOrdered-keys steps h.back m h.ordered (
        IsOrdered-deps steps h.back k h.ordered (h.covers k (In-keys k steps found)) step found m d)

  Ranks-of : (l : List String) (h : Sorted steps l) → Ranks steps (rank_of h.back)
  Ranks-of l h n step found m d =
      rank_of-lt steps h.back n h.ordered (h.covers n (In-keys n steps found)) step found m d

  Sorted-of :
      (P : SortState → Type 0) (ks : List String) (s t : SortState)
      → ((k : String) → In k (keys steps) → In k ks)
      → Inv steps t
      → KeysDone steps path P ks s t
      → Sorted steps t.sorted
  Sorted-of P ks s t all inv d = record {
    back = t.permanent;
    split = inv.aligned;
    ordered = inv.ordered;
    covers = λ k m. d.marked k (all k m);
  }

  module _ (sort_strings : List String → List String) (keeps : KeepsElements sort_strings) where
    known : (k : String) → In k (sort_strings (keys steps)) → In k (keys steps)
    known k = (keeps (keys steps) k).0

    every : (k : String) → In k (keys steps) → In k (sort_strings (keys steps))
    every k = (keeps (keys steps) k).1

    abbrev Fault : FieldError → Type 0
    Fault e = Dangling steps path e ⊎ ((c : List String) × (e ≡ forbidden path (detected_cycle c)))

    sort_Ensures : Ensures (Sorted steps) Fault (topological_sort steps path sort_strings)
    unfolding topological_sort
    sort_Ensures =
        Ensures-sorted_of
          (KeysDone steps path (Between steps path) (sort_strings (keys steps)) (start steps))
          (Sorted steps) Fault
          (visit_keys steps path (enough steps) (sort_strings (keys steps)) (start steps))
          (λ s d. Sorted-of _ _ _ s every d.again.inv d) (visit_keys_Done steps path _ known)

    -- The sort comes to an end within its fuel, on any steps.
    pub topological_sort_ends : topological_sort steps path sort_strings ≢ out_of_fuel
    topological_sort_ends e = subst (Ensures (Sorted steps) Fault) e sort_Ensures

    -- A sort that returns gives as many empty texts as there are steps, and then every step, once,
    -- behind its dependencies.
    pub topological_sort-Sorted :
        (sorted : List String)
        → topological_sort steps path sort_strings ≡ returned sorted
        → Sorted steps sorted
    topological_sort-Sorted sorted e = subst (Ensures (Sorted steps) Fault) e sort_Ensures

    ranked_Ensures :
        (rank : String → ℕ)
        → Ranks steps rank
        → Ensures (Sorted steps) (Dangling steps path) (topological_sort steps path sort_strings)
    unfolding topological_sort
    ranked_Ensures rank ranks =
        Ensures-sorted_of
          (KeysDone steps path (Between steps path) (sort_strings (keys steps)) (start steps))
          (Sorted steps) (Dangling steps path)
          (visit_keys steps path (enough steps) (sort_strings (keys steps)) (start steps))
          (λ s d. Sorted-of _ _ _ s every d.again.inv d)
          (visit_keys-Ranks steps path rank ranks _ known)

    -- The sort accepts exactly the steps whose dependencies are steps and can be ranked, that is,
    -- have no cycle.
    pub topological_sort_accepts_iff :
        ((sorted : List String) × (topological_sort steps path sort_strings ≡ returned sorted))
        ↔ (IsClosed steps × ((rank : String → ℕ) × Ranks steps rank))
    topological_sort_accepts_iff = (
      λ (sorted, e).
          let h = topological_sort-Sorted sorted e in
          (IsClosed-of sorted h, (rank_of h.back, Ranks-of sorted h)),
      λ (closed, (rank, ranks)).
          elim (Visit-cases (Sorted steps) (Dangling steps path) _ (ranked_Ensures rank ranks)) [
            | inl (sorted, e, h) ↦ (sorted, e)
            | inr (e, eq, d) ↦ absurd (not-Missing closed e (Missing-of e d))
          ],
    )

    Genuine-Ensures :
        ((n : String) → In n (keys steps) → n ≢ "")
        → Ensures (λ l. Unit {0}) (Genuine steps path) (topological_sort steps path sort_strings)
    unfolding topological_sort
    Genuine-Ensures named =
        Ensures-sorted_of
          (KeysDone steps path (BetweenBlank steps path) (sort_strings (keys steps)) (start steps))
          (λ l. Unit {0}) (Genuine steps path)
          (visit_keys steps path (enough steps) (sort_strings (keys steps)) (start steps))
          (λ s d. tt) (visit_keys_IsCycle steps path named _ known)

    -- Where no step has the empty name, an error of the sort either names a dependency of a step that
    -- is no step itself, or reports a list of steps in which each depends on the one before it and
    -- the first on the last.
    pub topological_sort_reports :
        ((n : String) → In n (keys steps) → n ≢ "")
        → (e : FieldError) → topological_sort steps path sort_strings ≡ failed e
        → Missing e ⊎ Cyclic e
    topological_sort_reports named e eq =
        ⊎_elim (λ d. inl (Missing-of e d))
          (λ (c, told, cycle). inr (record { cycle = c; named = told; genuine = cycle }))
          (subst (Ensures (λ l. Unit {0}) (Genuine steps path)) eq (Genuine-Ensures named))
