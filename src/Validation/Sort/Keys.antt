-- ===== src/Validation/Sort/Keys.antt =====
-- The loop of `topologicalSort` over the sorted keys, by one rule, and what it gives.
use kubernetes_workflow.Base.{
  ℕ, ◌<◌, String, List, [], ◌∷◌, true, false, member, member_iff, In, ◌≡◌, ◌⊎◌, inl, inr, refl, sym,
  ◌∙◌, arith, if_ind, ◌≢◌,
}
use mathlib.Core.List.{append-nil}
use mathlib.Core.Logic.{⊎_elim}
use kubernetes_workflow.GoMap.{keys}
use kubernetes_workflow.Validation.Field.{FieldPath, FieldError, forbidden, detected_cycle}
use kubernetes_workflow.Validation.Sort.{
  SortState, Visit, returned, failed, out_of_fuel, Steps, visit, visit_keys, start, enough, blanks,
}
use kubernetes_workflow.Validation.Sort.Rule.{Ensures, Visit-cases}
use kubernetes_workflow.Validation.Sort.Free.{free, free-le-length}
use kubernetes_workflow.Validation.Sort.Order.{Inv}
use kubernetes_workflow.Validation.Sort.Total.{Dangling, Visited, visit_Visited}
use kubernetes_workflow.Validation.Sort.Acyclic.{Ranks, Straight, visit-Straight}
use kubernetes_workflow.Validation.Sort.Cycle.{IsCycle, Unwinding, opened, complete, visit-Post}
use kubernetes_workflow.Validation.Sort.Total
use kubernetes_workflow.Validation.Sort.Cycle

-- What two accounts of a call say together.
Ensures-both :
    {A : Type 0} (Q Q' : A → Type 0) (R R' : FieldError → Type 0) (r : Visit A)
    → Ensures Q R r
    → Ensures Q' R' r
    → Ensures (λ a. Q a × Q' a) (λ e. R e × R' e) r
Ensures-both Q Q' R R' (returned a) h k = (h, k)
Ensures-both Q Q' R R' (failed e) h k = (h, k)
Ensures-both Q Q' R R' out_of_fuel h k = absurd h

Ensures-map :
    {A : Type 0} (Q Q' : A → Type 0) (R R' : FieldError → Type 0) (r : Visit A)
    → ((a : A) → Q a → Q' a)
    → ((e : FieldError) → R e → R' e)
    → Ensures Q R r
    → Ensures Q' R' r
Ensures-map Q Q' R R' (returned a) q k h = q a h
Ensures-map Q Q' R R' (failed e) q k h = k e h
Ensures-map Q Q' R R' out_of_fuel q k h = absurd h

module _ (steps : Steps) (path : FieldPath) where
  -- What a visit of the key `k` in the state `s` leaves behind.
  pub record KeyVisit (P : SortState → Type 0) (R : FieldError → Type 0) (k : String)
      (s t : SortState) : Type 0 where
    pub kept : (x : String) → In x s.permanent → In x t.permanent
    pub marked : In k t.permanent
    pub again : P t

  abbrev KeyStep :
      (SortState → Type 0) → (FieldError → Type 0) → String → SortState → SortState → Type 0
  KeyStep P R k s t =
      (t.is_cyclic ≡ false → KeyVisit P R k s t)
      × (t.is_cyclic ≡ true → R (forbidden path (detected_cycle t.cycle)))

  pub record KeysDone (P : SortState → Type 0) (ks : List String) (s t : SortState) : Type 0 where
    pub kept : (x : String) → In x s.permanent → In x t.permanent
    pub marked : (k : String) → In k ks → In k t.permanent
    pub again : P t

  KeysDone-cons :
      (P : SortState → Type 0) (k : String) (ks : List String) (s u t : SortState)
      → ((x : String) → In x s.permanent → In x u.permanent)
      → In k u.permanent
      → KeysDone P ks u t
      → KeysDone P (k ∷ ks) s t
  KeysDone-cons P k ks s u t kept marked d = record {
    kept = λ x m. d.kept x (kept x m);
    marked = λ x m. ⊎_elim (λ e. d.kept x (rw e marked)) (d.marked x) m;
    again = d.again;
  }

  visit_keys_ind :
      (P : SortState → Type 0) (R : FieldError → Type 0) (fuel : ℕ)
      → ((k : String) (s : SortState)
          → In k (keys steps)
          → P s
          → Ensures (KeyStep P R k s) R (visit steps path fuel k s))
      → (ks : List String) (s : SortState) → ((k : String) → In k ks → In k (keys steps))
      → P s
      → Ensures (KeysDone P ks s) R (visit_keys steps path fuel ks s)
  unfolding visit_keys
  visit_keys_ind P R fuel v [] s known p = record {
    kept = λ x m. m;
    marked = λ k m. absurd m;
    again = p;
  }
  visit_keys_ind P R fuel v (k ∷ ks) s known p =
      let rest =
        λ (u : SortState) (q : P u). visit_keys_ind P R fuel v ks u (λ x m. known x (inr m)) q in
      if_ind (Ensures (KeysDone P (k ∷ ks) s) R) (member k s.permanent)
        (λ old. later rest s (λ x m. m) ((member_iff k s.permanent).0 old) p)
        λ new. elim (Visit-cases (KeyStep P R k s) R _ (v k s (known k (inl refl)) p)) [
          | inr (e, eq, r) ↦ rw (eq, visit_keys) r
          | inl (u, eq, post) ↦
              rw (eq, visit_keys)
                (if_ind (Ensures (KeysDone P (k ∷ ks) s) R) u.is_cyclic post.1
                  λ straight. let w = post.0 straight in later rest u w.kept w.marked w.again)
        ]
    where
      later :
          ((u : SortState) → P u → Ensures (KeysDone P ks u) R (visit_keys steps path fuel ks u))
          → (u : SortState) → ((x : String) → In x s.permanent → In x u.permanent)
          → In k u.permanent
          → P u
          → Ensures (KeysDone P (k ∷ ks) s) R (visit_keys steps path fuel ks u)
      later rest u kept marked q =
          Ensures-map (KeysDone P ks u) (KeysDone P (k ∷ ks) s) R R _
            (λ t d. KeysDone-cons P k ks s u t kept marked d) (λ e r. r) (rest u q)

  -- Between two visits from the loop over the keys nothing is on the stack.
  pub record Between (s : SortState) : Type 0 where
    pub straight : s.is_cyclic ≡ false
    pub stack : s.temporary ≡ []
    pub inv : Inv steps s

  Between-fuelled : (s : SortState) → Between s → free (keys steps) s.temporary < enough steps
  Between-fuelled s h = omega (arith, free-le-length (keys steps) s.temporary)

  Between-start : Between (start steps)
  Between-start = record {
    straight = refl;
    stack = refl;
    inv = record { ordered = tt; aligned = sym (append-nil (blanks steps)) };
  }

  KeyVisit-of :
      (R : FieldError → Type 0) (k : String) (s t : SortState)
      → Between s
      → t.is_cyclic ≡ false
      → Visited steps path k s t
      → KeyVisit Between R k s t
  KeyVisit-of R k s t h straight v = record {
    kept = v.grows.kept;
    marked = v.marked;
    again = record { straight = straight; stack = v.stack ∙ h.stack; inv = v.inv };
  }

  total :
      (k : String) (s : SortState)
      → In k (keys steps)
      → Between s
      → Total.Pre steps path (enough steps) k s
  total k s m h = record {
    straight = h.straight;
    fuelled = Between-fuelled s h;
    inv = h.inv;
    wanted = inl m;
  }

  abbrev pub BetweenBlank : SortState → Type 0
  BetweenBlank s = Between s × (s.cycle ≡ [])

  abbrev pub Genuine : FieldError → Type 0
  Genuine e =
      Dangling steps path e
      ⊎ ((c : List String) × (e ≡ forbidden path (detected_cycle c)) × IsCycle steps c)

  KeyVisit-blank :
      (k : String) (s t : SortState)
      → BetweenBlank s
      → t.is_cyclic ≡ false
      → Visited steps path k s t
      → t.cycle ≡ []
      → KeyVisit BetweenBlank Genuine k s t
  KeyVisit-blank k s t h straight v blank = record {
    kept = v.grows.kept;
    marked = v.marked;
    again = (record { straight = straight; stack = v.stack ∙ h.0.stack; inv = v.inv }, blank);
  }

  emptied : (k : String) (t : SortState) → Unwinding steps [] k t → IsCycle steps t.cycle
  emptied k t (opened i ne trail) = absurd i
  emptied k t (complete e c) = c

  -- The loop over the keys ends; where it returns, every key was visited in order.
  pub visit_keys_Done :
      (ks : List String)
      → ((k : String) → In k ks → In k (keys steps))
      → Ensures
          (KeysDone Between ks (start steps))
          (λ e.
            Dangling steps path e ⊎ ((c : List String) × (e ≡ forbidden path (detected_cycle c))))
          (visit_keys steps path (enough steps) ks (start steps))
  visit_keys_Done ks known =
      visit_keys_ind Between _ (enough steps)
        (λ k s m h.
          Ensures-map (Total.Post steps path k s) (KeyStep Between _ k s) (Dangling steps path) _ _
            (λ t post. (λ e. KeyVisit-of _ k s t h e (post e), λ _. inr (t.cycle, refl)))
            (λ e d. inl d) (visit_Visited steps path (enough steps) k s (total k s m h)))
        ks (start steps) known Between-start

  -- Where the steps can be ranked, no cycle is reported.
  pub visit_keys-Ranks :
      (rank : String → ℕ)
      → Ranks steps rank
      → (ks : List String) → ((k : String) → In k ks → In k (keys steps))
      → Ensures
          (KeysDone Between ks (start steps))
          (Dangling steps path)
          (visit_keys steps path (enough steps) ks (start steps))
  visit_keys-Ranks rank ranks ks known =
      visit_keys_ind Between _ (enough steps)
        (λ k s m h.
          Ensures-map (λ t. Total.Post steps path k s t × Straight steps path rank ranks k s t)
            (KeyStep Between (Dangling steps path) k s) (λ e. Dangling steps path e × Unit {0}) _ _
            (λ t post. (λ e. KeyVisit-of _ k s t h e (post.0 e), λ e. absurd (cc post.1.straight)))
            (λ e d. d.0)
            (Ensures-both _ _ _ _ _ (visit_Visited steps path (enough steps) k s (total k s m h)) (
              visit-Straight steps path rank ranks (enough steps) k s (record {
                straight = h.straight;
                fuelled = Between-fuelled s h;
                above = λ x i. absurd (rw h.stack at i);
              }))))
        ks (start steps) known Between-start

  -- Where no step has the empty name, a reported cycle is one.
  pub visit_keys_IsCycle :
      ((n : String) → In n (keys steps) → n ≢ "")
      → (ks : List String) → ((k : String) → In k ks → In k (keys steps))
      → Ensures
          (KeysDone BetweenBlank ks (start steps))
          Genuine
          (visit_keys steps path (enough steps) ks (start steps))
  visit_keys_IsCycle named ks known =
      visit_keys_ind BetweenBlank _ (enough steps)
        (λ k s m h.
          Ensures-map (λ t. Total.Post steps path k s t × Cycle.Post steps path named k s t)
            (KeyStep BetweenBlank Genuine k s) (λ e. Dangling steps path e × Unit {0}) _ _
            (λ t post. (
              λ e. KeyVisit-blank k s t h e (post.0 e) (post.1.straight e).1,
              λ e. inr (t.cycle, refl, emptied k t (rw h.0.stack at (post.1.cyclic e))),
            ))
            (λ e d. inl d.0)
            (Ensures-both _ _ _ _ _ (visit_Visited steps path (enough steps) k s (total k s m h.0))
              (visit-Post steps path named (enough steps) k s (record {
                straight = h.0.straight;
                fuelled = Between-fuelled s h.0;
                blank = h.1;
              }))))
        ks (start steps) known (Between-start, refl)
