-- ===== src/Client/ThirdParty/Laws.antt =====
-- What the two constructors of the client return.
use kubernetes_workflow.Base.{inl, inr, [], ◌∷◌, ◌<>◌, Option, some, none, ◌≡◌, Option-cases}
use kubernetes_workflow.World.{Result, ok, panicked}
use kubernetes_workflow.Client.ThirdParty.{
  GroupVersion, Config, RestLibrary, ThirdPartyClient, default_api_path, set_third_party_defaults,
  new_third_party, new_third_party_or_die,
}

-- A panic in place of an error.
abbrev pub die_on_error {ℓ} : {A : Type ℓ} → Result (Option A) → Result A
die_on_error panicked = panicked
die_on_error (ok none) = panicked
die_on_error (ok (some a)) = ok a

module _ {Codec Rate Rest : Type 0} (library : RestLibrary Codec Rate Rest) (gv : GroupVersion)
    (c : Config Codec Rate) where
  -- The client for the host of the configuration, below the path of the third-party resources,
  -- whatever path or group the configuration had.
  abbrev pub client_of : Option Rest → Option (ThirdPartyClient Rest)
  client_of none = none
  client_of (some rest) = some (record {
    rest = rest;
    base_url = c.host <> library.join (default_api_path ∷ gv.group ∷ gv.version ∷ []);
  })

  pub new_third_party_lem :
      new_third_party library gv c
      ≡ ok (client_of (library.rest_client_for (set_third_party_defaults library gv c).0))
  unfolding new_third_party set_third_party_defaults
  new_third_party_lem =
      elim (Option-cases (library.rest_client_for (set_third_party_defaults library gv c).0)) [
        | inl failed ↦ simp failed
        | inr (rest, made_it) ↦ simp made_it
      ]

  new_third_party_or_die_agrees :
      new_third_party_or_die library gv c ≡ die_on_error (new_third_party library gv c)
  unfolding new_third_party_or_die new_third_party set_third_party_defaults
  new_third_party_or_die_agrees =
      elim (Option-cases (library.rest_client_for (set_third_party_defaults library gv c).0)) [
        | inl failed ↦ simp failed
        | inr (rest, made_it) ↦ simp made_it
      ]

  -- `NewThirdParty` does not panic: it fails exactly where no REST client can be made for the
  -- configuration with its defaults, and else the URL of its client is that of the group and version
  -- below the API path of the host. `NewThirdPartyOrDie` returns the same client, and panics where
  -- `NewThirdParty` returns an error.
  pub new_third_party_agree :
      (new_third_party library gv c
        ≡ ok (client_of (library.rest_client_for (set_third_party_defaults library gv c).0)))
      × (new_third_party_or_die library gv c ≡ die_on_error (new_third_party library gv c))
  new_third_party_agree = (new_third_party_lem, new_third_party_or_die_agrees)
