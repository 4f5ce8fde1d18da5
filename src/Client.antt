-- ===== src/Client.antt =====
-- pkg/client/workflows.go: the poll of `Watch`, which makes events from two lists of workflows that
-- follow one another. HTTP and JSON are left out: a poll is given the list that was decoded. An event
-- holds the address of the variable of a range loop, one variable for all rounds of the loop, so that
-- what the event points to changes while the loop goes on.
pub mod Laws
pub mod Memory
pub mod Aliased
pub mod Replay
pub mod Follow
pub mod Watcher
pub mod Requests
pub mod ThirdParty
use kubernetes_workflow.Base.{
  ℕ, suc, String, List, [], ◌∷◌, ◌++◌, Bool, true, false, ◌||◌, Option, some, none, if◌then◌else◌,
  ltb,
}
use kubernetes_workflow.GoMap.{Entries, lookup, insert}
use kubernetes_workflow.Api.Types.{Workflow}

-- The events, each with the address of a variable that holds its object.
pub data WatchEvent : Type 0 where
  added modified deleted : ℕ → WatchEvent

-- What the loops do that others can see: they write to their variable, and send an event.
pub data LoopStep : Type 0 where
  assigns : ℕ → Workflow → LoopStep
  sends : WatchEvent → LoopStep

-- What the variables hold, by their addresses.
abbrev pub Variables : Type 0
Variables = ℕ → Option Workflow

unfoldable pub write : ℕ → Workflow → Variables → Variables
write variable wf held p = if ltb p variable || ltb variable p then held p else some wf

abbrev pub perform : LoopStep → Variables → Variables
perform (assigns variable wf) held = write variable wf held
perform (sends e) held = held

-- The maps `nameMap` and `listMap`, and the steps of this poll, the first one first.
pub record Poll : Type 0 where
  pub name_map : Entries Workflow
  pub list_map : Entries Workflow
  pub steps : List LoopStep

module _ (deep_equal : Workflow → Workflow → Bool) where
  -- The event for one item, from what `nameMap` holds under its name.
  abbrev pub item_events : ℕ → Workflow → Option Workflow → List LoopStep
  item_events variable wf none = sends (added variable) ∷ []
  item_events variable wf (some old) =
      if deep_equal old wf then [] else sends (modified variable) ∷ []

  -- One round of the loop over the items, whose variable is given by its address.
  unfoldable pub poll_item : ℕ → Workflow → Poll → Poll
  poll_item variable wf p = record {
    name_map = insert wf.meta.name wf p.name_map;
    list_map = insert wf.meta.name wf p.list_map;
    steps =
        p.steps ++ (assigns variable wf ∷ item_events variable wf (lookup wf.meta.name p.name_map));
  }

  unfoldable pub poll_items : ℕ → List Workflow → Poll → Poll
  poll_items variable [] p = p
  poll_items variable (wf ∷ items) p = poll_items variable items (poll_item variable wf p)

-- The loop over `nameMap`: what is left of it.
unfoldable pub sweep : Entries Workflow → Entries Workflow → Entries Workflow
sweep list_map [] = []
sweep list_map ((k, wf) ∷ more) =
    let rest = sweep list_map more in
    elim (lookup k list_map) [ none ↦ rest | some kept ↦ (k, wf) ∷ rest ]

-- The steps of this loop, whose variable is given by its address.
unfoldable pub sweep_events : ℕ → Entries Workflow → Entries Workflow → List LoopStep
sweep_events variable list_map [] = []
sweep_events variable list_map ((k, wf) ∷ more) =
    let rest = sweep_events variable list_map more in
    assigns variable wf
    ∷ (elim (lookup k list_map) [ none ↦ sends (deleted variable) ∷ rest | some kept ↦ rest ])

-- One poll, for the list that `List` brought. The variable of its first loop has the given address,
-- that of its second loop the next one.
unfoldable pub poll : (Workflow → Workflow → Bool) → ℕ → List Workflow → Entries Workflow → Poll
poll deep_equal fresh items name_map =
    let p =
      poll_items deep_equal fresh items
        (record { name_map = name_map; list_map = []; steps = [] }) in
    record {
      name_map = sweep p.list_map p.name_map;
      list_map = p.list_map;
      steps = p.steps ++ sweep_events (suc fresh) p.list_map p.name_map;
    }

-- The loop of `Watch`, a `List` at each tick: what it remembers, and its steps; each poll has variables
-- of its own. What is no list (`none`) ends it.
unfoldable pub watch :
    (Workflow → Workflow → Bool)
    → List (Option (List Workflow))
    → ℕ
    → Entries Workflow
    → Entries Workflow × List LoopStep
watch deep_equal [] fresh name_map = (name_map, [])
watch deep_equal (none ∷ answers) fresh name_map = (name_map, [])
watch deep_equal (some items ∷ answers) fresh name_map =
    let p = poll deep_equal fresh items name_map in
    let (last, steps) = watch deep_equal answers (suc (suc fresh)) p.name_map in
    (last, p.steps ++ steps)
