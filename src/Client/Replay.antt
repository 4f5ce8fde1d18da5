-- ===== src/Client/Replay.antt =====
-- What a reader of the watch makes of what it sees: a map of its own, into which it writes what was
-- added or modified, and from which it takes what was deleted.
use kubernetes_workflow.Base.{
  String, List, [], ◌∷◌, ◌++◌, some, none, ◌==◌, ◌≡◌, inl, inr, refl, ap, arith, eq_iff,
  Option-cases, Bool-cases,
}
use kubernetes_workflow.GoMap.{Entries, lookup, insert, erase}
use kubernetes_workflow.GoMap.Laws.{lookup-erase}
use kubernetes_workflow.Api.Types.{Workflow}
use kubernetes_workflow.Client.{sweep}
use kubernetes_workflow.Client.Memory.{Change, appeared, changed, vanished, sweep_changes}

-- What the reader does with a change.
abbrev pub follow : Change → Entries Workflow → Entries Workflow
follow (appeared wf) view = insert wf.meta.name wf view
follow (changed wf) view = insert wf.meta.name wf view
follow (vanished wf) view = erase wf.meta.name view

unfoldable pub replay : List Change → Entries Workflow → Entries Workflow
replay [] view = view
replay (e ∷ events) view = replay events (follow e view)

pub replay-append :
    (first second : List Change) (view : Entries Workflow)
    → replay (first ++ second) view ≡ replay second (replay first view)
unfolding replay
replay-append [] second view = refl
replay-append (e ∷ first) second view = replay-append first second (follow e view)

-- Every workflow is remembered under its own name.
abbrev pub KeptByName : Entries Workflow → Type 0
KeptByName [] = Unit
KeptByName ((k, wf) ∷ m) = (wf.meta.name ≡ k) × KeptByName m

pub insert-KeptByName :
    (wf : Workflow) (m : Entries Workflow) → KeptByName m → KeptByName (insert wf.meta.name wf m)
unfolding insert
insert-KeptByName wf [] h = (refl, tt)
insert-KeptByName wf ((j, x) ∷ m) (named, h) = elim (Bool-cases (j == wf.meta.name)) [
  | inl same ↦ simp same (refl, h)
  | inr other ↦ simp other (named, insert-KeptByName wf m h)
]

pub sweep-KeptByName :
    (list_map m : Entries Workflow) → KeptByName m → KeptByName (sweep list_map m)
unfolding sweep
sweep-KeptByName list_map [] h = tt
sweep-KeptByName list_map ((j, x) ∷ m) (named, h) = elim (Option-cases (lookup j list_map)) [
  | inl gone ↦ rw (gone, sweep) (sweep-KeptByName list_map m h)
  | inr (y, kept) ↦ rw (kept, sweep) (named, sweep-KeptByName list_map m h)
]

-- The changes of the second loop take away exactly what the list does not have.
pub lookup-replay_sweep :
    (list_map m view : Entries Workflow) (k : String)
    → KeptByName m
    → lookup k (replay (sweep_changes list_map m) view) ≡ (elim (lookup k list_map) [
      | some kept ↦ lookup k view
      | none ↦ elim (lookup k m) [ none ↦ lookup k view | some gone ↦ none ]
    ])
unfolding sweep_changes replay lookup
lookup-replay_sweep list_map [] view k h = ground arith
lookup-replay_sweep list_map ((j, wf) ∷ m) view k (named, h) =
    elim (Option-cases (lookup j list_map)) [
      | inl gone ↦
          rw (gone, sweep_changes)
            (ground (
              arith,
              eq_iff j k,
              gone,
              named,
              lookup-replay_sweep list_map m (erase wf.meta.name view) k h,
              lookup-erase wf.meta.name k view,
              ap (λ (x : String). lookup x list_map),
            ))
      | inr (y, kept) ↦
          rw (kept, sweep_changes)
            (ground (
              arith,
              eq_iff j k,
              kept,
              lookup-replay_sweep list_map m view k h,
              ap (λ (x : String). lookup x list_map),
            ))
    ]
