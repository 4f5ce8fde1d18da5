-- ===== src/Client/Memory.antt =====
-- What the events of `Watch` point to: the variables of its range loops.
use kubernetes_workflow.Base.{
  ℕ, List, [], ◌∷◌, ◌++◌, Bool, Option, some, none, if◌then◌else◌, ◌≡◌, inl, inr, refl, sym, ap,
  ◌∙◌, arith, Option-cases, Bool-cases,
}
use mathlib.Core.List.{append_assoc}
use kubernetes_workflow.GoMap.{Entries, lookup}
use kubernetes_workflow.Api.Types.{Workflow}
use kubernetes_workflow.Client.{
  WatchEvent, added, modified, deleted, LoopStep, assigns, sends, Variables, write, perform,
  item_events, sweep_events,
}

-- What a reader sees that looks behind an event's address.
pub data Change : Type 0 where
  appeared changed vanished : Workflow → Change

abbrev pub look : WatchEvent → Variables → List Change
look (added variable) held = elim (held variable) [ none ↦ [] | some wf ↦ appeared wf ∷ [] ]
look (modified variable) held = elim (held variable) [ none ↦ [] | some wf ↦ changed wf ∷ [] ]
look (deleted variable) held = elim (held variable) [ none ↦ [] | some wf ↦ vanished wf ∷ [] ]

unfoldable pub performed : List LoopStep → Variables → Variables
performed [] held = held
performed (s ∷ steps) held = performed steps (perform s held)

-- What is seen by a reader that looks as an event is sent, before the loop goes on.
unfoldable pub seen : List LoopStep → Variables → List Change
seen [] held = []
seen (assigns variable wf ∷ steps) held = seen steps (write variable wf held)
seen (sends e ∷ steps) held = look e held ++ seen steps held

pub performed-append :
    (first second : List LoopStep) (held : Variables)
    → performed (first ++ second) held ≡ performed second (performed first held)
unfolding performed
performed-append [] second held = refl
performed-append (s ∷ first) second held = performed-append first second (perform s held)

pub seen-append :
    (first second : List LoopStep) (held : Variables)
    → seen (first ++ second) held ≡ seen first held ++ seen second (performed first held)
unfolding seen performed
seen-append [] second held = refl
seen-append (assigns variable wf ∷ first) second held =
    seen-append first second (write variable wf held)
seen-append (sends e ∷ first) second held =
    ap (λ l. look e held ++ l) (seen-append first second held)
    ∙ sym (append_assoc (look e held) (seen first held) _)

pub write_self :
    (variable : ℕ) (wf : Workflow) (held : Variables) → write variable wf held variable ≡ some wf
unfolding write
write_self variable wf held = ground arith

-- The changes that one item makes, by themselves.
abbrev pub item_changes : (Workflow → Workflow → Bool) → Workflow → Option Workflow → List Change
item_changes deep_equal wf none = appeared wf ∷ []
item_changes deep_equal wf (some old) = if deep_equal old wf then [] else changed wf ∷ []

pub seen-item :
    (deep_equal : Workflow → Workflow → Bool) (variable : ℕ) (wf : Workflow) (old : Option Workflow)
    (held : Variables)
    → seen (assigns variable wf ∷ item_events deep_equal variable wf old) held
      ≡ item_changes deep_equal wf old
unfolding seen
seen-item deep_equal variable wf none held = rw (write_self variable wf held, look) refl
seen-item deep_equal variable wf (some old) held = elim (Bool-cases (deep_equal old wf)) [
  | inl same ↦ simp same refl
  | inr other ↦ simp other (rw (write_self variable wf held, look) refl)
]

-- The changes that the second loop makes, by themselves.
unfoldable pub sweep_changes : Entries Workflow → Entries Workflow → List Change
sweep_changes list_map [] = []
sweep_changes list_map ((k, wf) ∷ more) =
    let rest = sweep_changes list_map more in
    elim (lookup k list_map) [ none ↦ vanished wf ∷ rest | some kept ↦ rest ]

pub seen-sweep_events :
    (variable : ℕ) (list_map m : Entries Workflow) (held : Variables)
    → seen (sweep_events variable list_map m) held ≡ sweep_changes list_map m
unfolding seen sweep_events sweep_changes
seen-sweep_events variable list_map [] held = refl
seen-sweep_events variable list_map ((k, wf) ∷ m) held = elim (Option-cases (lookup k list_map)) [
  | inl gone ↦
      rw (gone, sweep_events, sweep_changes)
        (rw (write_self variable wf held, look)
          (ap (λ l. vanished wf ∷ l)
            (seen-sweep_events variable list_map m (write variable wf held))))
  | inr (x, kept) ↦
      rw (kept, sweep_events, sweep_changes)
        (seen-sweep_events variable list_map m (write variable wf held))
]
