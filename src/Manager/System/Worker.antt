-- ===== src/Manager/System/Worker.antt =====
-- pkg/workflow/manager.go: `worker`, for what `queue.Get` answers: a key, or that the queue was shut down
-- (`none`). The loop has no end in the code; `rounds` bounds the part of it that is looked at. Where
-- a round panics, `wait.Until` starts the worker again.
use kubernetes_workflow.Base.{
  ℕ, zero, suc, String, List, [], ◌∷◌, ◌++◌, Bool, Option, some, none, ◌≡◌, refl, ◌∙◌, sym,
}
use kubernetes_workflow.Api.Meta.{Job}
use kubernetes_workflow.World.{Cluster}
use kubernetes_workflow.Manager.{work}
use kubernetes_workflow.Manager.System.{Event, worked, System, again, advance, run}

module _ (cluster : Cluster) where
  -- The function that the loop calls. Where the queue was shut down it returns, and the loop goes on.
  unfoldable pub worker_round : Option String → System → System
  worker_round none s = s
  worker_round (some key) s =
      let r = work cluster key s.world in record { world = r.1; added = again r.0 ++ s.added }

  -- The loop, from the question `i` to the queue on.
  unfoldable pub worker : (rounds : ℕ) → (ℕ → Option String) → ℕ → System → System
  worker zero gets i s = s
  worker (suc rounds) gets i s = worker rounds gets (suc i) (worker_round (gets i) s)

  -- The events that a worker brings about.
  abbrev pub got : Option String → List Event
  got none = []
  got (some key) = worked key ∷ []

  abbrev pub worker_events : (rounds : ℕ) → (ℕ → Option String) → ℕ → List Event
  worker_events zero gets i = []
  worker_events (suc rounds) gets i = got (gets i) ++ worker_events rounds gets (suc i)

  worker_round-run :
      (deep_equal : Job → Job → Bool) (answer : Option String) (events : List Event) (s : System)
      → run cluster deep_equal (got answer ++ events) s
        ≡ run cluster deep_equal events (worker_round answer s)
  unfolding run advance worker_round
  worker_round-run deep_equal none events s = refl
  worker_round-run deep_equal (some key) events s = refl

  -- What a worker does is a sequence of the manager's events.
  pub worker-run :
      (deep_equal : Job → Job → Bool) (rounds : ℕ) (gets : ℕ → Option String) (i : ℕ) (s : System)
      → worker rounds gets i s ≡ run cluster deep_equal (worker_events rounds gets i) s
  unfolding worker run
  worker-run deep_equal zero gets i s = refl
  worker-run deep_equal (suc rounds) gets i s =
      worker-run deep_equal rounds gets (suc i) (worker_round (gets i) s)
      ∙ sym (worker_round-run deep_equal (gets i) (worker_events rounds gets (suc i)) s)
