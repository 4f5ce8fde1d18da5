-- ===== src/Manager/System/Rule.antt =====
-- The rule of a worker's round: what the smallest parts of a transition keep, the round keeps.
use kubernetes_workflow.Manager.System.{System, restore, after_add_job}
use kubernetes_workflow.Api.Types.{Workflow}
use kubernetes_workflow.Base.{refl, List, none, String, ◌≡◌, some, Option}
use kubernetes_workflow.World.{Cluster, Result, ok, panicked, World}
use kubernetes_workflow.World.Runs.{Ends, Runs-bind}
use kubernetes_workflow.Transitioner.Steps.Rule.{Fact, At, Parts}
use kubernetes_workflow.Transitioner.Process.{transition_workflow}
use kubernetes_workflow.Transitioner.Process.Rule.{
  KeysByName, StoredByKey, transition_workflow-Keeps,
}
use kubernetes_workflow.Manager.{Handled, work}

Ends-any :
    {A : Type 0} (E : World → Type 0) (r : Result A) (w : World) → Ends (λ a w'. E w') E r w → E w
Ends-any E (ok a) w h = h
Ends-any E panicked w h = h

-- A worker's round keeps what the smallest parts of a transition of its key keep.
pub work-Keeps :
    (cluster : Cluster)
    → KeysByName cluster
    → (key : String) (P : Fact) → Parts cluster key P
    → (w : World) → StoredByKey cluster key w
    → At P w
    → At P (work cluster key w).1
unfolding work
work-Keeps cluster by_name key P parts w keyed h =
    let r = work cluster key w in
    Ends-any (At P) r.0 r.1 (
      Runs-bind (λ t w'. At P w') (λ a w'. At P w') (At P) (transition_workflow cluster key) _ w
        (transition_workflow-Keeps cluster by_name key P parts w keyed h) (λ t w' k. k))

-- A change of the informer's store under a key keeps what it keeps for every key of the workflow.
pub restore_ind :
    (P : World → Type 0) (f : String → List (String × Workflow) → List (String × Workflow))
    (key : Option String) (w : World)
    → P w
    → ((k : String) → key ≡ some k → P (record w { store = f k w.store }))
    → P (restore f key w)
restore_ind P f none w h changed = h
restore_ind P f (some k) w h changed = changed k refl

-- `addJob` changes the expectations at most.
pub after_add_job_ind :
    (P : World → Type 0) (r : Result Handled) (s : System)
    → P s.world
    → ((h : Handled) → r ≡ ok h → P (record (s.world) { expectations = h.expectations }))
    → P (after_add_job r s).world
after_add_job_ind P panicked s h changed = h
after_add_job_ind P (ok handled) s h changed = changed handled refl
