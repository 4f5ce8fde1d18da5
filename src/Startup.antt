-- ===== src/Startup.antt =====
-- main.go: `main`, from the flags to the manager.
pub mod Laws
use kubernetes_workflow.Base.{ℕ, zero, String, ◌<>◌, Bool, false, Option, some, none, if◌then◌else◌}
use kubernetes_workflow.Base.Int.{pos}
use kubernetes_workflow.Api.Types.{group}
use kubernetes_workflow.Api.Methods.{workflow_version}
use kubernetes_workflow.World.{Result, ok, panicked}
use kubernetes_workflow.Client.ThirdParty.{
  GroupVersion, Config, RestLibrary, ThirdPartyClient, new_third_party,
}
use kubernetes_workflow.Registration.{
  GetAnswer, Registered, was_present, was_created, create_failed, register_third_party_resource,
}

-- How `main` goes on: a panic, the three fatal errors, the return without the resource, or the manager
-- that runs with the client.
pub data Started (Rest : Type 0) : Type 0 where
  crashed no_third_party_client no_clientset no_batch_client not_registered : Started Rest
  manager_runs : ThirdPartyClient Rest → Started Rest

-- What `main` takes from libraries: `net.JoinHostPort`, and whether the two other clients can be made.
pub record Libraries (Codec Rate Rest : Type 0) : Type 0 where
  pub rest : RestLibrary Codec Rate Rest
  pub join_host_port : String → String → String
  pub makes_clientset : Config Codec Rate → Bool
  pub makes_batch_client : Config Codec Rate → Bool

abbrev pub workflow_group_version : GroupVersion
workflow_group_version = record { group = group; version = workflow_version }

module _ {Codec Rate Rest : Type 0} (libraries : Libraries Codec Rate Rest) where
  -- The configuration for the flags.
  abbrev pub client_config : String → String → Config Codec Rate
  client_config host port = record {
    host = "http://" <> libraries.join_host_port host port;
    api_path = "";
    user_agent = "";
    group_version = none;
    codec = none;
    negotiated = false;
    qps = libraries.rest.rate_of 0;
    burst = pos 0;
  }

  -- What follows the registration.
  abbrev pub run_manager : ThirdPartyClient Rest → Registered → Started Rest
  run_manager client was_present = manager_runs client
  run_manager client was_created = manager_runs client
  run_manager client create_failed = not_registered

  -- What follows the third-party client.
  unfoldable pub with_clients :
      ℕ
      → (ℕ → GetAnswer)
      → (ℕ → Bool)
      → Config Codec Rate
      → ThirdPartyClient Rest
      → Option (Started Rest)
  with_clients fuel answers accepts c client =
      if libraries.makes_clientset c
      then (if libraries.makes_batch_client c
          then (elim (register_third_party_resource fuel answers accepts) [
            | none ↦ none
            | some registered ↦ some (run_manager client registered)
          ])
          else some no_batch_client)
      else some no_clientset

  -- `main`, for the two flags; `fuel` bounds the requests of the registration.
  unfoldable pub main :
      (fuel : ℕ) → (ℕ → GetAnswer) → (ℕ → Bool) → (host port : String) → Option (Started Rest)
  main fuel answers accepts host port =
      let c = client_config host port in
      elim (new_third_party libraries.rest workflow_group_version c) [
        | panicked ↦ some crashed
        | ok none ↦ some no_third_party_client
        | ok (some client) ↦ with_clients fuel answers accepts c client
      ]
