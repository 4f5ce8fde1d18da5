-- ===== src/Client/Laws.antt =====
-- What a poll remembers.
use kubernetes_workflow.Base.{
  ℕ, String, List, [], ◌∷◌, Bool, Option, some, none, if◌then◌else◌, ◌==◌, ◌≡◌, inl, inr, refl, ◌∙◌,
  ap, arith, eq_iff, Option-cases,
}
use kubernetes_workflow.GoMap.{Entries, lookup}
use kubernetes_workflow.GoMap.Laws.{lookup-insert}
use kubernetes_workflow.Api.Types.{Workflow}
use kubernetes_workflow.Client.{Poll, poll_item, poll_items, sweep, poll}

-- A name that is not in the list is not left, and of the others what was there is left.
pub lookup-sweep :
    (list_map m : Entries Workflow) (k : String)
    → lookup k (sweep list_map m)
      ≡ (elim (lookup k list_map) [ none ↦ none | some kept ↦ lookup k m ])
unfolding sweep lookup
lookup-sweep list_map [] k = ground arith
lookup-sweep list_map ((j, wf) ∷ m) k =
    ground (arith, eq_iff j k, lookup-sweep list_map m k, ap (λ (x : String). lookup x list_map))

-- What the list has, the remembered map has.
abbrev IsRemembered : Poll → Type 0
IsRemembered p =
    (k : String) (wf : Workflow) → lookup k p.list_map ≡ some wf → lookup k p.name_map ≡ some wf

poll_item-IsRemembered :
    (deep_equal : Workflow → Workflow → Bool) (variable : ℕ) (wf : Workflow) (p : Poll)
    → IsRemembered p
    → IsRemembered (poll_item deep_equal variable wf p)
unfolding poll_item
poll_item-IsRemembered deep_equal variable wf p h k x found = ground (
  arith,
  lookup-insert wf.meta.name k wf p.list_map,
  lookup-insert wf.meta.name k wf p.name_map,
  h k x,
)

poll_items-IsRemembered :
    (deep_equal : Workflow → Workflow → Bool) (variable : ℕ) (items : List Workflow) (p : Poll)
    → IsRemembered p
    → IsRemembered (poll_items deep_equal variable items p)
unfolding poll_items
poll_items-IsRemembered deep_equal variable [] p h = h
poll_items-IsRemembered deep_equal variable (wf ∷ items) p h =
    poll_items-IsRemembered deep_equal variable items _
      (poll_item-IsRemembered deep_equal variable wf p h)

-- What a list has under a name: the last item with this name.
unfoldable pub listed : String → List Workflow → Option Workflow
listed k [] = none
listed k (wf ∷ items) = elim (listed k items) [
  | some later ↦ some later
  | none ↦ if wf.meta.name == k then some wf else none
]

lookup-poll_items :
    (deep_equal : Workflow → Workflow → Bool) (variable : ℕ) (items : List Workflow) (p : Poll)
    (k : String)
    → lookup k (poll_items deep_equal variable items p).list_map
      ≡ (elim (listed k items) [ some x ↦ some x | none ↦ lookup k p.list_map ])
unfolding poll_items poll_item listed lookup
lookup-poll_items deep_equal variable [] p k = refl
lookup-poll_items deep_equal variable (wf ∷ items) p k = ground (
  arith,
  lookup-poll_items deep_equal variable items (poll_item deep_equal variable wf p) k,
  lookup-insert wf.meta.name k wf p.list_map,
)

-- What is left of a map that has all that the list has is what the list has.
lookup-swept :
    (p : Poll) (k : String)
    → IsRemembered p
    → lookup k (sweep p.list_map p.name_map) ≡ lookup k p.list_map
lookup-swept p k h = elim (Option-cases (lookup k p.list_map)) [
  | inl absent ↦ ground (arith, lookup-sweep p.list_map p.name_map k)
  | inr (x, found) ↦ ground (arith, lookup-sweep p.list_map p.name_map k, h k x found)
]

-- After a poll the watch remembers under each name the last item of the list with this name, and
-- nothing where the list has no such item, whatever it remembered before.
pub poll_remembers :
    (deep_equal : Workflow → Workflow → Bool) (variable : ℕ) (items : List Workflow)
    (before : Entries Workflow) (k : String)
    → lookup k (poll deep_equal variable items before).name_map ≡ listed k items
unfolding poll lookup
poll_remembers deep_equal variable items before k =
    let p : Poll = record { name_map = before; list_map = []; steps = [] } in
    lookup-swept (poll_items deep_equal variable items p) k
      (poll_items-IsRemembered deep_equal variable items p (λ j wf found. cc))
    ∙ (lookup-poll_items deep_equal variable items p k ∙ ground arith)
