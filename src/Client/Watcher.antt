-- ===== src/Client/Watcher.antt =====
-- pkg/watch/thirdparty.go, and the goroutine of `Watch` in pkg/client/workflows.go: the watcher, and the
-- moves of the goroutine, of the reader of the channel, and of whoever stops the watcher. The channel
-- has no buffer: an event that is sent waits for the reader, and so does the loop.
pub mod Laws
use kubernetes_workflow.Base.{
  ℕ, suc, String, List, [], ◌∷◌, ◌++◌, Bool, true, false, Option, some, none, ◌≡◌,
}
use kubernetes_workflow.GoMap.{Entries}
use kubernetes_workflow.Api.Types.{Workflow}
use kubernetes_workflow.Client.{WatchEvent, LoopStep, assigns, sends, Variables, write, poll}
use kubernetes_workflow.Client.Memory.{Change, look}
use kubernetes_workflow.Client.Requests.{Fetched, unreached, undecoded, nil_result, fetched}
use kubernetes_workflow.Client.ThirdParty.{ThirdPartyClient}

-- `Result` is the channel: the events that came through it, the first one first.
pub record ThirdPartyWatcher : Type 0 where
  pub result : List WatchEvent
  pub stopped : Bool

unfoldable pub new_third_party_watcher : ThirdPartyWatcher
new_third_party_watcher = record { result = []; stopped = false }

-- `ResultChan`: what a reader gets.
unfoldable pub result_chan : ThirdPartyWatcher → List WatchEvent
result_chan tpw = tpw.result

-- `Stop`.
unfoldable pub stop : ThirdPartyWatcher → ThirdPartyWatcher
stop tpw = record tpw { stopped = true }

-- The watcher, what the goroutine remembers, the steps of this poll that are still to be done, what the
-- variables of the loops hold, the address of the next one, whether the loop over the ticks goes on, and
-- whether the goroutine has panicked, which ends the program.
pub record Watching : Type 0 where
  pub watcher : ThirdPartyWatcher
  pub name_map : Entries Workflow
  pub left : List LoopStep
  pub variables : Variables
  pub fresh : ℕ
  pub running : Bool
  pub crashed : Bool

-- `workflows`, but for its ticker: the ticks are moves of the watch.
pub record Workflows (Rest : Type 0) : Type 0 where
  pub client : ThirdPartyClient Rest
  pub ns : String
  pub name_map : Entries Workflow

module _ {Rest : Type 0} where
  unfoldable pub new_workflows : ThirdPartyClient Rest → String → Workflows Rest
  new_workflows c namespace = record { client = c; ns = namespace; name_map = [] }

  -- The ticker that is given takes the place of the timer; a watch on it ticks like another.
  unfoldable pub new_fake_workflows : ThirdPartyClient Rest → String → Workflows Rest
  new_fake_workflows c namespace = record { client = c; ns = namespace; name_map = [] }

  -- `ThirdPartyClient.Workflows`.
  unfoldable pub workflows : ThirdPartyClient Rest → String → Workflows Rest
  workflows c namespace = new_workflows c namespace

  -- `Watch`, before its first tick.
  unfoldable pub start_watch : Workflows Rest → Watching
  start_watch w = record {
    watcher = new_third_party_watcher;
    name_map = w.name_map;
    left = [];
    variables = λ p. none;
    fresh = 0;
    running = true;
    crashed = false;
  }

-- The list in an answer of `List`.
abbrev pub items_of : Fetched (List Workflow) → Option (List Workflow)
items_of unreached = none
items_of undecoded = none
items_of nil_result = none
items_of (fetched items) = some items

-- A tick, with the answer of `List`: an error ends the goroutine, and the items of a nil list cannot be
-- read.
unfoldable pub tick : (Workflow → Workflow → Bool) → Fetched (List Workflow) → Watching → Watching
tick deep_equal unreached s = record s { running = false }
tick deep_equal undecoded s = record s { running = false }
tick deep_equal nil_result s = record s { running = false; crashed = true }
tick deep_equal (fetched items) s =
    let p = poll deep_equal s.fresh items s.name_map in
    record s { name_map = p.name_map; left = p.steps; fresh = suc (suc s.fresh) }

-- One event comes through the channel.
abbrev pub received : WatchEvent → ThirdPartyWatcher → ThirdPartyWatcher
received e tpw = record tpw { result = tpw.result ++ e ∷ [] }

module _ {Rest : Type 0} (client : ThirdPartyClient Rest) (ns : String)
    (deep_equal : Workflow → Workflow → Bool) where
  -- The states of a watch on the client's workflows after the given answers of `List`, in any order of
  -- the moves, with what its reader saw, who looks at an event as it comes through the channel, before
  -- the loop goes on.
  pub data Watched : List (Option (List Workflow)) → Watching → List Change → Type 0 where
    begins : Watched [] (start_watch (workflows client ns)) []
    ticks :
        {answers : List (Option (List Workflow))} {s : Watching} {saw : List Change}
        (answer : Fetched (List Workflow))
        → Watched answers s saw
        → s.running ≡ true
        → s.left ≡ []
        → Watched (answers ++ items_of answer ∷ []) (tick deep_equal answer s) saw
    writes :
        {answers : List (Option (List Workflow))} {s : Watching} {saw : List Change} (variable : ℕ)
        (wf : Workflow) (steps : List LoopStep)
        → Watched answers s saw
        → s.left ≡ assigns variable wf ∷ steps
        → Watched answers (record s { left = steps; variables = write variable wf s.variables }) saw
    receives :
        {answers : List (Option (List Workflow))} {s : Watching} {saw : List Change}
        (e : WatchEvent) (steps : List LoopStep)
        → Watched answers s saw
        → s.left ≡ sends e ∷ steps
        → Watched answers
            (record s { watcher = received e s.watcher; left = steps })
            (saw ++ look e s.variables)
    stops :
        {answers : List (Option (List Workflow))} {s : Watching} {saw : List Change}
        → Watched answers s saw
        → s.crashed ≡ false
        → Watched answers (record s { watcher = stop s.watcher }) saw
