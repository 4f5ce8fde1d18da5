-- ===== src/Client/Follow.antt =====
-- A reader of the watch, and what the server listed last.
use kubernetes_workflow.Base.{
  ℕ, suc, String, List, [], ◌∷◌, ◌++◌, Bool, true, Option, some, none, ◌==◌, ◌≡◌, inl, inr, refl,
  ◌∙◌, ap, sym, subst, eq_iff, Option-cases, Bool-cases,
}
use kubernetes_workflow.GoMap.{Entries, lookup, insert}
use kubernetes_workflow.GoMap.Laws.{lookup-insert}
use kubernetes_workflow.Api.Types.{Workflow}
use kubernetes_workflow.Client.{
  assigns, Variables, Poll, item_events, poll_item, poll_items, sweep, sweep_events, poll, watch,
}
use kubernetes_workflow.Client.Memory.{
  seen, performed, seen-append, item_changes, seen-item, sweep_changes, seen-sweep_events,
}
use kubernetes_workflow.Client.Laws.{lookup-sweep, listed, poll_remembers}
use kubernetes_workflow.Client.Replay.{
  replay, replay-append, KeptByName, insert-KeptByName, sweep-KeptByName, lookup-replay_sweep,
}

-- The last list before an error, or the list given.
unfoldable pub last_list : List (Option (List Workflow)) → List Workflow → List Workflow
last_list [] items = items
last_list (none ∷ answers) items = items
last_list (some new ∷ answers) items = last_list answers new

lookup-watch :
    (deep_equal : Workflow → Workflow → Bool) (answers : List (Option (List Workflow))) (fresh : ℕ)
    (name_map : Entries Workflow) (items : List Workflow) (k : String)
    → lookup k name_map ≡ listed k items
    → lookup k (watch deep_equal answers fresh name_map).0 ≡ listed k (last_list answers items)
unfolding watch last_list
lookup-watch deep_equal [] fresh name_map items k h = h
lookup-watch deep_equal (none ∷ answers) fresh name_map items k h = h
lookup-watch deep_equal (some new ∷ answers) fresh name_map items k h =
    lookup-watch deep_equal answers (suc (suc fresh)) (poll deep_equal fresh new name_map).name_map
      new k (poll_remembers deep_equal fresh new name_map k)

-- Neither map has anything under the name, or both have workflows that are deeply equal.
abbrev pub Agrees : (Workflow → Workflow → Bool) → Option Workflow → Option Workflow → Type 0
Agrees deep_equal none none = Unit
Agrees deep_equal none (some y) = ⊥
Agrees deep_equal (some x) none = ⊥
Agrees deep_equal (some x) (some y) = deep_equal x y ≡ true

module _ (deep_equal : Workflow → Workflow → Bool)
    (reflexive : (x : Workflow) → deep_equal x x ≡ true)
    (transitive : (x y z : Workflow)
      → deep_equal x y ≡ true
      → deep_equal y z ≡ true
      → deep_equal x z ≡ true) where
  abbrev pub AgreeAll : Entries Workflow → Entries Workflow → Type 0
  AgreeAll view name_map = (k : String) → Agrees deep_equal (lookup k view) (lookup k name_map)

  -- A write of the same workflow into both maps.
  AgreeAll-insert :
      (wf : Workflow) (view name_map : Entries Workflow)
      → AgreeAll view name_map
      → AgreeAll (insert wf.meta.name wf view) (insert wf.meta.name wf name_map)
  AgreeAll-insert wf view name_map h k = elim (Bool-cases (wf.meta.name == k)) [
    | inl same ↦ simp (lookup-insert, same) (reflexive wf)
    | inr other ↦ simp (lookup-insert, other) (h k)
  ]

  Agrees-trans :
      (o : Option Workflow) (old wf : Workflow)
      → deep_equal old wf ≡ true
      → Agrees deep_equal o (some old)
      → Agrees deep_equal o (some wf)
  Agrees-trans none old wf same h = h
  Agrees-trans (some x) old wf same h = transitive x old wf h same

  -- A write into the remembered map, of a workflow that is deeply equal to what it had.
  AgreeAll-unchanged :
      (wf old : Workflow) (view name_map : Entries Workflow)
      → lookup wf.meta.name name_map ≡ some old
      → deep_equal old wf ≡ true
      → AgreeAll view name_map
      → AgreeAll view (insert wf.meta.name wf name_map)
  AgreeAll-unchanged wf old view name_map had same_as h k = elim (Bool-cases (wf.meta.name == k)) [
    | inl same ↦
        simp (lookup-insert, same)
          (Agrees-trans (lookup k view) old wf same_as (
            subst (Agrees deep_equal (lookup k view))
              (ap (λ (x : String). lookup x name_map) (sym ((eq_iff wf.meta.name k).0 same)) ∙ had)
              (h k)))
    | inr other ↦ simp (lookup-insert, other) (h k)
  ]

  AgreeAll-item :
      (wf : Workflow) (view name_map : Entries Workflow)
      → AgreeAll view name_map
      → AgreeAll
          (replay (item_changes deep_equal wf (lookup wf.meta.name name_map)) view)
          (insert wf.meta.name wf name_map)
  unfolding replay
  AgreeAll-item wf view name_map h = elim (Option-cases (lookup wf.meta.name name_map)) [
    | inl new ↦ rw (new, item_changes) (AgreeAll-insert wf view name_map h)
    | inr (old, had) ↦ elim (Bool-cases (deep_equal old wf)) [
      | inl same ↦
          rw (had, item_changes) (simp same (AgreeAll-unchanged wf old view name_map had same h))
      | inr other ↦ rw (had, item_changes) (simp other (AgreeAll-insert wf view name_map h))
    ]
  ]

  poll_items-Follows :
      (variable : ℕ) (items : List Workflow) (p : Poll) (view : Entries Workflow) (held : Variables)
      → AgreeAll (replay (seen p.steps held) view) p.name_map
      → KeptByName p.name_map
      → AgreeAll
          (replay (seen (poll_items deep_equal variable items p).steps held) view)
          (poll_items deep_equal variable items p).name_map
        × KeptByName (poll_items deep_equal variable items p).name_map
  unfolding poll_items poll_item
  poll_items-Follows variable [] p view held h named = (h, named)
  poll_items-Follows variable (wf ∷ items) p view held h named =
      let old = lookup wf.meta.name p.name_map in
      let item = assigns variable wf ∷ item_events deep_equal variable wf old in
      poll_items-Follows variable items (poll_item deep_equal variable wf p) view held
        (subst (λ (v : Entries Workflow). AgreeAll v (insert wf.meta.name wf p.name_map))
          (sym (
            ap (λ l. replay l view)
              (seen-append p.steps item held
                ∙ ap (λ l. seen p.steps held ++ l)
                    (seen-item deep_equal variable wf old (performed p.steps held)))
            ∙ replay-append (seen p.steps held) (item_changes deep_equal wf old) view))
          (AgreeAll-item wf (replay (seen p.steps held) view) p.name_map h))
        (insert-KeptByName wf p.name_map named)

  Agrees-swept :
      (l m v : Option Workflow)
      → Agrees deep_equal v m
      → Agrees deep_equal
          (elim l [ some kept ↦ v | none ↦ elim m [ none ↦ v | some gone ↦ none ] ])
          (elim l [ none ↦ none | some kept ↦ m ])
  Agrees-swept none none none h = tt
  Agrees-swept none none (some y) h = h
  Agrees-swept none (some x) v h = tt
  Agrees-swept (some y) m v h = h

  -- The second loop.
  AgreeAll-sweep :
      (list_map view name_map : Entries Workflow)
      → KeptByName name_map
      → AgreeAll view name_map
      → AgreeAll (replay (sweep_changes list_map name_map) view) (sweep list_map name_map)
  AgreeAll-sweep list_map view name_map named h k =
      rw (lookup-replay_sweep list_map name_map view k named, lookup-sweep list_map name_map k)
        (Agrees-swept (lookup k list_map) (lookup k name_map) (lookup k view) (h k))

  poll-Follows :
      (fresh : ℕ) (items : List Workflow) (name_map view : Entries Workflow) (held : Variables)
      → KeptByName name_map
      → AgreeAll view name_map
      → AgreeAll
          (replay (seen (poll deep_equal fresh items name_map).steps held) view)
          (poll deep_equal fresh items name_map).name_map
        × KeptByName (poll deep_equal fresh items name_map).name_map
  unfolding poll replay seen
  poll-Follows fresh items name_map view held named h =
      let p : Poll = record { name_map = name_map; list_map = []; steps = [] } in
      let p' = poll_items deep_equal fresh items p in
      let (agree, named') = poll_items-Follows fresh items p view held h named in
      let swept = sweep_events (suc fresh) p'.list_map p'.name_map in
      (
        subst (λ (v : Entries Workflow). AgreeAll v (sweep p'.list_map p'.name_map))
            (sym (
              ap (λ l. replay l view)
                (seen-append p'.steps swept held
                  ∙ ap (λ l. seen p'.steps held ++ l)
                      (seen-sweep_events (suc fresh) p'.list_map p'.name_map
                        (performed p'.steps held)))
              ∙ replay-append (seen p'.steps held) (sweep_changes p'.list_map p'.name_map) view))
            (AgreeAll-sweep p'.list_map (replay (seen p'.steps held) view) p'.name_map named'
              agree),
        sweep-KeptByName p'.list_map p'.name_map named',
      )

  -- A reader that has what the watch remembers, and looks at every event as it is sent, has what the
  -- watch remembers after all polls.
  watch-Follows :
      (answers : List (Option (List Workflow))) (fresh : ℕ) (name_map view : Entries Workflow)
      (held : Variables)
      → KeptByName name_map
      → AgreeAll view name_map
      → AgreeAll
          (replay (seen (watch deep_equal answers fresh name_map).1 held) view)
          (watch deep_equal answers fresh name_map).0
  unfolding watch replay seen
  watch-Follows [] fresh name_map view held named h = h
  watch-Follows (none ∷ answers) fresh name_map view held named h = h
  watch-Follows (some items ∷ answers) fresh name_map view held named h =
      let p = poll deep_equal fresh items name_map in
      let later = suc (suc fresh) in
      let rest = (watch deep_equal answers later p.name_map).1 in
      let (agree, named') = poll-Follows fresh items name_map view held named h in
      subst (λ (v : Entries Workflow). AgreeAll v (watch deep_equal answers later p.name_map).0)
        (sym (
          ap (λ l. replay l view) (seen-append p.steps rest held)
          ∙ replay-append (seen p.steps held) (seen rest (performed p.steps held)) view))
        (watch-Follows answers later p.name_map (replay (seen p.steps held) view)
          (performed p.steps held) named' agree)

  -- Whatever lists the server gives one after the other, a reader that starts with nothing and looks at
  -- every event as it is sent has under each name what the last list before an error has, up to deep
  -- equality, which is reflexive and transitive.
  pub watch_follows :
      (answers : List (Option (List Workflow))) (fresh : ℕ) (held : Variables) (k : String)
      → Agrees deep_equal
          (lookup k (replay (seen (watch deep_equal answers fresh []).1 held) []))
          (listed k (last_list answers []))
  unfolding lookup listed
  watch_follows answers fresh held k =
      subst
        (Agrees deep_equal (lookup k (replay (seen (watch deep_equal answers fresh []).1 held) [])))
        (lookup-watch deep_equal answers fresh [] [] k refl)
        (watch-Follows answers fresh [] [] held tt (λ j. tt) k)
