-- ===== src/Tests/Client.antt =====
-- The client, its configuration and the start of the controller at small inputs.
use kubernetes_workflow.Base.{
  All, ℕ, zero, suc, ◌<◌, ◌≤◌, String, List, [], ◌∷◌, ◌<>◌, Bool, true, false, Option, some, none,
  ◌≡◌, ◌↔◌, refl, ltb, arith, ◌==◌, if◌then◌else◌,
}
use kubernetes_workflow.Base.Int.{pos}
use kubernetes_workflow.GoMap.{lookup, insert}
use kubernetes_workflow.Api.Types.{Workflow}
use kubernetes_workflow.Client.Requests.Retry.{update_over_client_succeeds}
use kubernetes_workflow.World.{ok, status_error, other_error}
use kubernetes_workflow.Client.{
  added, deleted, write, poll, poll_items, poll_item, sweep, sweep_events,
}
use kubernetes_workflow.Client.Memory.{appeared, vanished, performed}
use kubernetes_workflow.Client.Aliased.{last_met, Aliases, poll_start, poll-Aliases}
use kubernetes_workflow.Client.Laws.{listed}
use kubernetes_workflow.Client.Replay.{replay}
use kubernetes_workflow.Client.Follow.{Agrees, last_list}
use kubernetes_workflow.Client.Watcher.{
  stop, tick, new_third_party_watcher, new_workflows, workflows, start_watch, Watching, Watched,
  begins, ticks, writes, receives, stops,
}
use kubernetes_workflow.Client.Watcher.Laws.{received_agree}
use kubernetes_workflow.Transitioner.Status.{update_workflow_status}
use kubernetes_workflow.Client.Requests.{
  unreached, fetched, Http, decode_error, decoded, update, update_answer, get_workflow, over_client,
}
use kubernetes_workflow.Client.Requests.Laws.{Refuses, update_refused_iff}
use kubernetes_workflow.Client.ThirdParty.{
  ThirdPartyClient, Config, RestLibrary, set_third_party_defaults,
}
use kubernetes_workflow.Registration.{GetAnswer, not_found, unreachable}
use kubernetes_workflow.Startup.{
  Libraries, manager_runs, workflow_group_version, client_config, main,
}
use kubernetes_workflow.Startup.Laws.{client, main_runs_iff}
use kubernetes_workflow.Samples.{fresh_workflow, sample_cluster, sample_world}

-- A workflow is listed, then nothing is, and then the server is not reached.
abbrev three_answers : List (Option (List Workflow))
three_answers = some (fresh_workflow ∷ []) ∷ some [] ∷ none ∷ []

abbrev the_client : ThirdPartyClient String
the_client = record { rest = "rest"; base_url = "http://host/apis" }

-- The reader takes the two events, and the watcher is stopped between them.
abbrev last_watching : Watching
last_watching = record {
  watcher = record { result = added 0 ∷ deleted 3 ∷ []; stopped = true };
  name_map = [];
  left = [];
  variables = write 3 fresh_workflow (write 1 fresh_workflow (write 0 fresh_workflow (λ p. none)));
  fresh = 4;
  running = false;
  crashed = false;
}

last-Watched :
    Watched the_client "ns"
      (λ old wf. true)
      three_answers
      last_watching
      (appeared fresh_workflow ∷ vanished fresh_workflow ∷ [])
unfolding tick stop new_third_party_watcher new_workflows workflows start_watch poll poll_items
    poll_item sweep sweep_events write insert lookup
last-Watched =
    let listed_one = ticks (fetched (fresh_workflow ∷ [])) begins refl refl in
    let first = receives (added 0) _ (writes 0 fresh_workflow _ listed_one refl) refl in
    let swept = writes 1 fresh_workflow [] first refl in
    let listed_none = ticks (fetched []) (stops swept refl) refl refl in
    let second = receives (deleted 3) [] (writes 3 fresh_workflow _ listed_none refl) refl in
    ticks unreached second refl refl

received_agree_example :
    Agrees
      (λ old wf. true)
      (lookup "wf" (replay (appeared fresh_workflow ∷ vanished fresh_workflow ∷ []) []))
      (listed "wf" (last_list three_answers []))
received_agree_example =
    received_agree the_client "ns" (λ old wf. true) (λ x. refl) (λ x y z first second. refl) "wf"
      last-Watched refl

-- A second workflow in the list.
abbrev other_workflow : Workflow
other_workflow = record fresh_workflow { meta = record (fresh_workflow.meta) { name = "other" } }

-- Both events point to the second workflow.
poll-Aliases_example :
    All
      (Aliases
        (performed
          (poll (λ old wf. true) 0 (fresh_workflow ∷ other_workflow ∷ []) []).steps
          (λ p. none))
        other_workflow
        (last_met
          (poll_items
            (λ old wf. true)
            0
            (fresh_workflow ∷ other_workflow ∷ [])
            (poll_start [])).name_map
          (performed
            (poll_items
              (λ old wf. true)
              0
              (fresh_workflow ∷ other_workflow ∷ [])
              (poll_start [])).steps
            (λ p. none)
            1)))
      (poll (λ old wf. true) 0 (fresh_workflow ∷ other_workflow ∷ []) []).steps
poll-Aliases_example =
    poll-Aliases (λ old wf. true) 0 (fresh_workflow ∷ []) other_workflow [] (λ p. none)

join_texts : List String → String
join_texts [] = ""
join_texts (part ∷ parts) = part <> ("/" <> join_texts parts)

-- A server that answers every request with a status.
abbrev refusing : Http String
refusing = record {
  join = join_texts;
  encode = λ wf. some wf.meta.name;
  makes_request = λ url. true;
  put = λ url body. some (some "conflict");
  get_body = λ url. none;
  unmarshal_workflow = λ body. none;
  unmarshal_status = λ body. some body;
  decode_workflow = λ body. decode_error;
  decode_list = λ body. decode_error;
}

update_refused_iff_example :
    (update_answer (update refusing "http://h/apis/g/v" "ns" fresh_workflow) ≡ status_error) ↔ (
      (fresh_workflow.meta.name == "" ≡ false)
      × ((body : String) × Refuses refusing "http://h/apis/g/v" "ns" fresh_workflow body))
update_refused_iff_example = update_refused_iff refusing "http://h/apis/g/v" "ns" fresh_workflow

-- A server that answers the first question with a status, and the others with a workflow.
abbrev reply : ℕ → String
reply zero = "conflict"
reply (suc i) = "workflow"

abbrev changing : ℕ → Http String
changing i = record {
  join = join_texts;
  encode = λ wf. some wf.meta.name;
  makes_request = λ url. true;
  put = λ url body. some (some (reply i));
  get_body = λ url. some "workflow";
  unmarshal_workflow = λ body. if body == "conflict" then none else some fresh_workflow;
  unmarshal_status = λ body. some body;
  decode_workflow = λ body. decoded fresh_workflow;
  decode_list = λ body. decode_error;
}

update_over_client_succeeds_example :
    (update_workflow_status
      (over_client (sample_cluster [] (λ i. other_error)) "http://h/apis/g/v" changing)
      fresh_workflow
      (sample_world fresh_workflow)).0
    ≡ ok none
unfolding get_workflow
update_over_client_succeeds_example =
    update_over_client_succeeds (sample_cluster [] (λ i. other_error)) "http://h/apis/g/v" changing
      fresh_workflow refl 1 (sample_world fresh_workflow) (omega arith)
      (
        λ rv. ("conflict", (("wf", refl, refl, refl), refl, ("conflict", refl))),
        (fresh_workflow, refl),
        tt,
      )
      (λ rv. ("workflow", ("wf", refl, refl, refl), (fresh_workflow, refl)))

-- A library whose clients are the hosts of their configurations.
abbrev plain_library : RestLibrary String ℕ String
plain_library = record {
  default_user_agent = "agent";
  legacy_codec = λ gv. gv.group;
  is_zero_rate = λ rate. ltb rate 1;
  rate_of = λ n. n;
  rest_client_for = λ c. some c.host;
  join = join_texts;
}

abbrev plain_config : Config String ℕ
plain_config = record {
  host = "http://h";
  api_path = "/old";
  user_agent = "";
  group_version = none;
  codec = none;
  negotiated = false;
  qps = 0;
  burst = pos 7;
}

abbrev plain_libraries : Libraries String ℕ String
plain_libraries = record {
  rest = plain_library;
  join_host_port = λ host port. host <> (":" <> port);
  makes_clientset = λ c. true;
  makes_batch_client = λ c. true;
}

-- The first request does not reach the server.
abbrev late_server : ℕ → GetAnswer
late_server zero = unreachable
late_server (suc i) = not_found

abbrev accepts_third : ℕ → Bool
accepts_third i = ltb 1 i

unreached_once : (k : ℕ) → 0 ≤ k → k < 1 → late_server k ≡ unreachable
unreached_once zero low high = refl
unreached_once (suc k) low high = absurd (omega arith)

abbrev plain_host : String
plain_host = (client_config plain_libraries "127.0.0.1" "8080").host

rest_made :
    plain_libraries.rest.rest_client_for
      (set_third_party_defaults plain_libraries.rest workflow_group_version
        (client_config plain_libraries "127.0.0.1" "8080")).0
    ≡ some plain_host
unfolding set_third_party_defaults
rest_made = refl

main_runs_iff_example :
    (main plain_libraries 2 late_server accepts_third "127.0.0.1" "8080"
      ≡ some (
          manager_runs (
            client plain_libraries "127.0.0.1" "8080" plain_host rest_made refl refl 2 late_server
              accepts_third)))
    ↔ ((t : ℕ) × (t < 5) × (accepts_third t ≡ true))
main_runs_iff_example =
    main_runs_iff plain_libraries "127.0.0.1" "8080" plain_host rest_made refl refl 2 late_server
      accepts_third 1 (omega arith) unreached_once refl
