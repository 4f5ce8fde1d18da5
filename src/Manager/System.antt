-- ===== src/Manager/System.antt =====
-- pkg/workflow/manager.go: the manager at work. What happens to it is a sequence of events: a worker is
-- given a key, or an informer reports a change of a job or of a workflow. A worker may be given any key
-- at any time, so every order in which the queue may hand keys out is among the sequences. A
-- transition is one event: workers run side by side, but the queue gives a key to one of them only, and
-- the expectations and the stored workflows are kept by key. What an informer does in the middle of a
-- transition is left to Manager.Race.
pub mod Rule
pub mod Keyed
pub mod Fence
pub mod Round
pub mod Count
pub mod Once
pub mod Worker
pub mod Turns
pub mod Labelled
pub mod Finish
pub mod Submitted
pub mod Created
use kubernetes_workflow.Base.{ℕ, String, List, [], ◌∷◌, ◌++◌, Bool, true, false, Option, some, none}
use kubernetes_workflow.GoMap.{lookup, insert, erase}
use kubernetes_workflow.Api.Meta.{Job}
use kubernetes_workflow.Api.Types.{Workflow}
use kubernetes_workflow.Expectations.{new_expectations}
use kubernetes_workflow.World.{Cluster, Result, ok, panicked, World}
use kubernetes_workflow.Manager.{
  Deleted, Handled, enqueue_workflow, update_workflow, add_job, update_job, delete_job_event, work,
  enqueue_after,
}

-- A worker's round for a key; the events of the job informer; the events of the workflow informer,
-- which writes its store first; a tombstone of a deleted workflow has its key.
pub data Event : Type 0 where
  worked : String → Event
  job_added : Job → Event
  job_updated : Job → Job → Event
  job_deleted : Deleted → Event
  workflow_added workflow_updated workflow_deleted : Workflow → Event

-- The controller's state, and the keys that were given to `queue.Add`, the last first.
pub record System : Type 0 where
  pub world : World
  pub added : List String

-- `NewManager`: an empty queue, no expectations, and a store that the informer has not filled yet.
unfoldable pub new_manager : System
new_manager = record {
  world = record {
    asked = 0;
    store = [];
    expectations = new_expectations;
    created = [];
    updates = [];
    events = [];
  };
  added = [];
}

-- The stored workflows, as the lookups see them.
abbrev pub stored : List (String × Workflow) → List Workflow
stored [] = []
stored ((k, wf) ∷ store) = wf ∷ stored store

-- The keys that a handler adds; a handler that panics adds none.
abbrev pub keys_of : Result (List String) → List String
keys_of panicked = []
keys_of (ok keys) = keys

-- The key that a worker adds again.
abbrev pub again : Result (Option (ℕ × String)) → List String
again panicked = []
again (ok none) = []
again (ok (some (delay, key))) = (enqueue_after key delay).1

-- The expectations after `addJob`, and the keys that it adds.
abbrev pub after_add_job : Result Handled → System → System
after_add_job panicked s = s
after_add_job (ok h) s = record {
  world = record (s.world) { expectations = h.expectations };
  added = h.added ++ s.added;
}

-- The informer's store under the key of the workflow, changed by `f`.
abbrev pub restore :
    (String → List (String × Workflow) → List (String × Workflow)) → Option String → World → World
restore f none w = w
restore f (some key) w = record w { store = f key w.store }

module _ (cluster : Cluster) (deep_equal : Job → Job → Bool) where
  -- What an event does.
  unfoldable pub advance : Event → System → System
  advance (worked key) s =
      let r = work cluster key s.world in record { world = r.1; added = again r.0 ++ s.added }
  advance (job_added job) s =
      after_add_job (add_job cluster job (stored s.world.store) s.world.expectations) s
  advance (job_updated old cur) s = record s {
    added = keys_of (update_job cluster deep_equal old cur (stored s.world.store)) ++ s.added;
  }
  advance (job_deleted deleted) s = record s {
    added = keys_of (delete_job_event cluster deleted (stored s.world.store)) ++ s.added;
  }
  advance (workflow_added wf) s = record {
    world = restore (λ key store. insert key wf store) (cluster.key_func wf.meta) s.world;
    added = enqueue_workflow cluster wf ++ s.added;
  }
  advance (workflow_updated wf) s = record {
    world = restore (λ key store. insert key wf store) (cluster.key_func wf.meta) s.world;
    added = update_workflow cluster wf ++ s.added;
  }
  advance (workflow_deleted wf) s = record {
    world = restore (λ key store. erase key store) (cluster.key_func wf.meta) s.world;
    added = enqueue_workflow cluster wf ++ s.added;
  }

  -- The events, one after the other.
  unfoldable pub run : List Event → System → System
  run [] s = s
  run (e ∷ events) s = run events (advance e s)
