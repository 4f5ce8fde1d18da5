-- ===== src/Startup/Laws.antt =====
-- When the manager runs.
use kubernetes_workflow.Base.{
  ℕ, ◌<◌, String, [], ◌∷◌, ◌<>◌, Bool, true, false, Option, some, ◌≡◌, ◌↔◌, refl, sym, ◌∙◌, ap,
}
use kubernetes_workflow.World.{ok}
use kubernetes_workflow.Client.ThirdParty.{
  ThirdPartyClient, set_third_party_defaults, new_third_party, default_api_path,
}
use kubernetes_workflow.Client.ThirdParty.Laws.{client_of, new_third_party_lem}
use kubernetes_workflow.Registration.{
  GetAnswer, not_found, Registered, was_present, was_created, create_failed,
  register_third_party_resource,
}
use kubernetes_workflow.Registration.Laws.{Waits, register_ends, register_creates}
use kubernetes_workflow.Startup.{
  manager_runs, Libraries, workflow_group_version, client_config, run_manager, with_clients, main,
}

module _ {Codec Rate Rest : Type 0} (libraries : Libraries Codec Rate Rest) (host port : String)
    (rest : Rest)
    (makes_rest : libraries.rest.rest_client_for
        (set_third_party_defaults libraries.rest workflow_group_version
          (client_config libraries host port)).0
      ≡ some rest)
    (makes_clientset : libraries.makes_clientset (client_config libraries host port) ≡ true)
    (makes_batch : libraries.makes_batch_client (client_config libraries host port) ≡ true)
    (fuel : ℕ) (answers : ℕ → GetAnswer) (accepts : ℕ → Bool) where
  -- The client for the host of the flags.
  abbrev pub client : ThirdPartyClient Rest
  client = record {
    rest = rest;
    base_url =
        (client_config libraries host port).host
        <> libraries.rest.join
            (default_api_path ∷ workflow_group_version.group ∷ workflow_group_version.version ∷ []);
  }

  main_registered :
      (registered : Registered)
      → register_third_party_resource fuel answers accepts ≡ some registered
      → main libraries fuel answers accepts host port
        ≡ some (run_manager libraries client registered)
  unfolding main with_clients
  main_registered registered e =
      let made_it : new_third_party libraries.rest workflow_group_version
            (client_config libraries host port)
          ≡ ok (some client) =
        new_third_party_lem libraries.rest workflow_group_version
          (client_config libraries host port)
        ∙ ap
            (λ (o : Option Rest). ok (
              client_of libraries.rest workflow_group_version (client_config libraries host port)
                o))
            makes_rest in
      rw (made_it, main) (simp (makes_clientset, makes_batch, e))

  outcome_runs :
      (registered : Registered)
      → (registered ≡ was_present → ⊥)
      → some (run_manager libraries client registered) ≡ some (manager_runs client)
      → registered ≡ was_created
  outcome_runs was_present absent e = absurd (absent refl)
  outcome_runs was_created absent e = refl
  outcome_runs create_failed absent e = cc e

  -- Where the three clients can be made, and the server is reached within the fuel and does not know the
  -- resource, `main` runs the manager, with the client for the API path of the host, exactly where one
  -- of the first five tries to create the resource is accepted.
  pub main_runs_iff :
      (n : ℕ)
      → n < fuel
      → Waits answers 0 n
      → answers n ≡ not_found
      → (main libraries fuel answers accepts host port ≡ some (manager_runs client))
        ↔ ((t : ℕ) × (t < 5) × (accepts t ≡ true))
  main_runs_iff n reached waits missing =
      let (registered, ends, present_iff) =
        register_ends fuel n answers accepts false reached waits missing in
      (
        λ runs.
            let created =
              outcome_runs registered (λ there. cc (present_iff.0 there))
                (sym (main_registered registered ends) ∙ runs) in
            (register_creates fuel n answers accepts reached waits missing).0
              (ends ∙ ap some created),
        λ tries.
            main_registered was_created
              ((register_creates fuel n answers accepts reached waits missing).1 tries),
      )
