-- ===== src/Client/Aliased.antt =====
-- What the events of a poll point to once the poll is through.
use kubernetes_workflow.Base.{
  ℕ, suc, List, [], ◌∷◌, ◌++◌, Bool, Option, some, none, ◌≡◌, inl, inr, refl, ap, ◌∙◌, arith, All,
  All-append, Option-cases, Bool-cases,
}
use kubernetes_workflow.GoMap.{Entries, lookup}
use kubernetes_workflow.Api.Types.{Workflow}
use kubernetes_workflow.Client.{
  added, modified, deleted, LoopStep, assigns, sends, Variables, write, Poll, item_events,
  poll_item, poll_items, sweep_events, poll,
}
use kubernetes_workflow.Client.Memory.{performed, performed-append, write_self}

-- The events of the first loop point to its variable, those of the second loop to the next one.
abbrev OfPoll : ℕ → LoopStep → Type 0
OfPoll fresh (assigns variable wf) = Unit
OfPoll fresh (sends (added p)) = p ≡ fresh
OfPoll fresh (sends (modified p)) = p ≡ fresh
OfPoll fresh (sends (deleted p)) = p ≡ suc fresh

-- The workflow that the loop over a map meets last.
abbrev pub last_met : Entries Workflow → Option Workflow → Option Workflow
last_met [] before = before
last_met ((k, wf) ∷ m) before = last_met m (some wf)

-- The workflow behind the address in an event, where the variables hold `held`: the last item of the
-- list for an added or a modified one, and what the second loop met last for a deleted one.
abbrev pub Aliases : Variables → Workflow → Option Workflow → LoopStep → Type 0
Aliases held final met (assigns variable wf) = Unit
Aliases held final met (sends (added p)) = held p ≡ some final
Aliases held final met (sends (modified p)) = held p ≡ some final
Aliases held final met (sends (deleted p)) = held p ≡ met

-- The poll before its first loop.
abbrev pub poll_start : Entries Workflow → Poll
poll_start name_map = record { name_map = name_map; list_map = []; steps = [] }

module _ (deep_equal : Workflow → Workflow → Bool) (fresh : ℕ) where
  item_events-OfPoll :
      (wf : Workflow) (old : Option Workflow)
      → All (OfPoll fresh) (item_events deep_equal fresh wf old)
  item_events-OfPoll wf none = (refl, tt)
  item_events-OfPoll wf (some old) = elim (Bool-cases (deep_equal old wf)) [
    | inl same ↦ simp same tt
    | inr other ↦ simp other (refl, tt)
  ]

  poll_items-OfPoll :
      (items : List Workflow) (p : Poll)
      → All (OfPoll fresh) p.steps
      → All (OfPoll fresh) (poll_items deep_equal fresh items p).steps
  unfolding poll_items poll_item
  poll_items-OfPoll [] p h = h
  poll_items-OfPoll (wf ∷ items) p h = poll_items-OfPoll items (poll_item deep_equal fresh wf p) (
      All-append (OfPoll fresh) p.steps _ h
        (tt, item_events-OfPoll wf (lookup wf.meta.name p.name_map)))

  sweep_events-OfPoll :
      (list_map m : Entries Workflow) → All (OfPoll fresh) (sweep_events (suc fresh) list_map m)
  unfolding sweep_events
  sweep_events-OfPoll list_map [] = tt
  sweep_events-OfPoll list_map ((k, wf) ∷ m) = elim (Option-cases (lookup k list_map)) [
    | inl gone ↦ rw (gone, sweep_events) (tt, (refl, sweep_events-OfPoll list_map m))
    | inr (x, kept) ↦ rw (kept, sweep_events) (tt, sweep_events-OfPoll list_map m)
  ]

  performed-item_events :
      (wf : Workflow) (old : Option Workflow) (held : Variables)
      → performed (item_events deep_equal fresh wf old) held ≡ held
  unfolding performed
  performed-item_events wf none held = refl
  performed-item_events wf (some old) held = elim (Bool-cases (deep_equal old wf)) [
    | inl same ↦ simp same refl
    | inr other ↦ simp other refl
  ]

  -- After the first loop its variable holds the last item.
  performed-poll_items :
      (items : List Workflow) (final : Workflow) (p : Poll) (held : Variables)
      → performed (poll_items deep_equal fresh (items ++ final ∷ []) p).steps held fresh
        ≡ some final
  unfolding poll_items poll_item performed
  performed-poll_items [] final p held =
      ap (λ (v : Variables). v fresh)
        (performed-append p.steps _ held
          ∙ performed-item_events final (lookup final.meta.name p.name_map) _)
      ∙ write_self fresh final (performed p.steps held)
  performed-poll_items (wf ∷ items) final p held =
      performed-poll_items items final (poll_item deep_equal fresh wf p) held

  write-other : (wf : Workflow) (held : Variables) → write (suc fresh) wf held fresh ≡ held fresh
  unfolding write
  write-other wf held = ground arith

  -- The second loop leaves the first one's variable alone, and its own one holds what it met last.
  performed-sweep_events :
      (list_map m : Entries Workflow) (held : Variables)
      → (performed (sweep_events (suc fresh) list_map m) held fresh ≡ held fresh)
        × (performed (sweep_events (suc fresh) list_map m) held (suc fresh)
            ≡ last_met m (held (suc fresh)))
  unfolding sweep_events performed
  performed-sweep_events list_map [] held = (refl, refl)
  performed-sweep_events list_map ((k, wf) ∷ m) held =
      let later = write (suc fresh) wf held in
      let (first, second) = performed-sweep_events list_map m later in
      let met = second ∙ ap (last_met m) (write_self (suc fresh) wf held) in
      elim (Option-cases (lookup k list_map)) [
        | inl gone ↦ rw (gone, sweep_events) (first ∙ write-other wf held, met)
        | inr (x, kept) ↦ rw (kept, sweep_events) (first ∙ write-other wf held, met)
      ]

  All-Aliases :
      (held : Variables) (final : Workflow) (met : Option Workflow) (steps : List LoopStep)
      → held fresh ≡ some final
      → held (suc fresh) ≡ met
      → All (OfPoll fresh) steps
      → All (Aliases held final met) steps
  All-Aliases held final met [] f d h = tt
  All-Aliases held final met (assigns v wf ∷ steps) f d (here, h) =
      (tt, All-Aliases held final met steps f d h)
  All-Aliases held final met (sends (added p) ∷ steps) f d (here, h) =
      (ap held here ∙ f, All-Aliases held final met steps f d h)
  All-Aliases held final met (sends (modified p) ∷ steps) f d (here, h) =
      (ap held here ∙ f, All-Aliases held final met steps f d h)
  All-Aliases held final met (sends (deleted p) ∷ steps) f d (here, h) =
      (ap held here ∙ d, All-Aliases held final met steps f d h)

  -- Once a poll of a list that is not empty is through, whatever the variables held before, every added
  -- and every modified event that it sent points to the last item of the list, whichever item it was
  -- sent for; and every deleted one points to the workflow that the loop over the remembered workflows
  -- met last, whether or not that one is deleted.
  pub poll-Aliases :
      (items : List Workflow) (final : Workflow) (name_map : Entries Workflow) (held : Variables)
      → All
          (Aliases
            (performed (poll deep_equal fresh (items ++ final ∷ []) name_map).steps held)
            final
            (last_met
              (poll_items deep_equal fresh (items ++ final ∷ []) (poll_start name_map)).name_map
              (performed
                (poll_items deep_equal fresh (items ++ final ∷ []) (poll_start name_map)).steps
                held
                (suc fresh))))
          (poll deep_equal fresh (items ++ final ∷ []) name_map).steps
  unfolding poll
  poll-Aliases items final name_map held =
      let all = items ++ final ∷ [] in
      let p = poll_items deep_equal fresh all (poll_start name_map) in
      let swept = sweep_events (suc fresh) p.list_map p.name_map in
      let parts = performed-append p.steps swept held in
      let (first, second) = performed-sweep_events p.list_map p.name_map (performed p.steps held) in
      All-Aliases _ final _ (p.steps ++ swept)
        (ap (λ (v : Variables). v fresh) parts
          ∙ first
          ∙ performed-poll_items items final (poll_start name_map) held)
        (ap (λ (v : Variables). v (suc fresh)) parts ∙ second)
        (All-append (OfPoll fresh) p.steps swept (poll_items-OfPoll all (poll_start name_map) tt)
          (sweep_events-OfPoll p.list_map p.name_map))
