-- ===== src/Client/ThirdParty.antt =====
-- pkg/client/thirdparty.go: the client of the workflow resource and its configuration.
pub mod Laws
use kubernetes_workflow.Base.{
  ℕ, zero, suc, String, List, [], ◌∷◌, ◌<>◌, Bool, true, false, Option, some, none, ◌==◌,
  if◌then◌else◌,
}
use kubernetes_workflow.Base.Int.{ℤ, pos, negsuc}
use kubernetes_workflow.World.{Result, ok, panicked}

pub record GroupVersion : Type 0 where
  pub group : String
  pub version : String

-- `restclient.Config`: the fields that this code reads or sets. A codec is made by the library.
pub record Config (Codec Rate : Type 0) : Type 0 where
  pub host : String
  pub api_path : String
  pub user_agent : String
  pub group_version : Option GroupVersion
  pub codec : Option Codec
  pub negotiated : Bool
  pub qps : Rate
  pub burst : ℤ

-- What the code takes from Kubernetes' libraries: the name of the user agent, the codec for a group
-- and version, the rate as a floating point number, and the REST client, whose error is `none`.
pub record RestLibrary (Codec Rate Rest : Type 0) : Type 0 where
  pub default_user_agent : String
  pub legacy_codec : GroupVersion → Codec
  pub is_zero_rate : Rate → Bool
  pub rate_of : ℕ → Rate
  pub rest_client_for : Config Codec Rate → Option Rest
  pub join : List String → String

-- `ThirdPartyClient`.
pub record ThirdPartyClient (Rest : Type 0) : Type 0 where
  pub rest : Rest
  pub base_url : String

abbrev pub default_api_path : String
default_api_path = "/apis"

abbrev pub default_qps : ℕ
default_qps = 5

abbrev pub default_burst : ℕ
default_burst = 10

abbrev pub is_zero : ℤ → Bool
is_zero (pos zero) = true
is_zero (pos (suc n)) = false
is_zero (negsuc n) = false

module _ {Codec Rate Rest : Type 0} (library : RestLibrary Codec Rate Rest) where
  -- `setThirdPartyDefaults`: the configuration, and its error, which is always nil.
  unfoldable pub set_third_party_defaults :
      GroupVersion → Config Codec Rate → Config Codec Rate × Bool
  set_third_party_defaults gv c = (
    record {
      host = c.host;
      api_path = default_api_path;
      user_agent = if c.user_agent == "" then library.default_user_agent else c.user_agent;
      group_version = some gv;
      codec = some (library.legacy_codec gv);
      negotiated = true;
      qps = if library.is_zero_rate c.qps then library.rate_of default_qps else c.qps;
      burst = if is_zero c.burst then pos default_burst else c.burst;
    },
    false,
  )

  -- `c.Host + path.Join(c.APIPath, c.GroupVersion.Group, c.GroupVersion.Version)`; a missing group
  -- version would panic.
  abbrev pub base_url_of : Config Codec Rate → Option String
  base_url_of c = elim c.group_version [
    | none ↦ none
    | some gv ↦ some (c.host <> library.join (c.api_path ∷ gv.group ∷ gv.version ∷ []))
  ]

  abbrev pub with_base_url : Rest → Option String → Result (Option (ThirdPartyClient Rest))
  with_base_url rest none = panicked
  with_base_url rest (some url) = ok (some (record { rest = rest; base_url = url }))

  -- `NewThirdParty`: an error is `none`.
  unfoldable pub new_third_party :
      GroupVersion → Config Codec Rate → Result (Option (ThirdPartyClient Rest))
  new_third_party gv c =
      let (c', failed) = set_third_party_defaults gv c in
      if failed then ok none else (elim (library.rest_client_for c') [
        | none ↦ ok none
        | some rest ↦ with_base_url rest (base_url_of c')
      ])

  abbrev pub with_base_url_or_die : Rest → Option String → Result (ThirdPartyClient Rest)
  with_base_url_or_die rest none = panicked
  with_base_url_or_die rest (some url) = ok (record { rest = rest; base_url = url })

  -- `NewThirdPartyOrDie`.
  unfoldable pub new_third_party_or_die :
      GroupVersion → Config Codec Rate → Result (ThirdPartyClient Rest)
  new_third_party_or_die gv c =
      let (c', failed) = set_third_party_defaults gv c in
      if failed then panicked else (elim (library.rest_client_for c') [
        | none ↦ panicked
        | some rest ↦ with_base_url_or_die rest (base_url_of c')
      ])
