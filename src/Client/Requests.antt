-- ===== src/Client/Requests.antt =====
-- pkg/client/workflows.go: `Update`, `List` and `Get`, which turn a call into an HTTP request and what
-- the server answers into a result. HTTP and JSON are parameters.
pub mod Laws
pub mod Retry
use kubernetes_workflow.Base.{
  ℕ, String, List, [], ◌∷◌, ◌<>◌, Bool, Option, some, none, ◌==◌, if◌then◌else◌,
}
use kubernetes_workflow.Api.Types.{Workflow}
use kubernetes_workflow.World.{
  Cluster, UpdateAnswer, updated, status_error, other_error, VersionAnswer, not_brought,
  brought_nil, brought,
}

-- What `Decode` does with a pointer: an error, the pointer nil, or a value behind it.
pub data Decoded {ℓ} (A : Type ℓ) : Type ℓ where
  decode_error decoded_nil : Decoded A
  decoded : A → Decoded A

-- What the client takes from libraries and from the server: `path.Join`; `json.Marshal`, whose error is
-- `none`; whether `http.NewRequest` makes a request for a URL; the answer to a PUT of a text, `none`
-- where the server is not reached, and in it the body, `none` where it cannot be read; the body of the
-- answer to a GET; and the decoders: `json.Unmarshal` into a workflow and into a status, whose errors are
-- `none`, and `Decode` of a `json.Decoder` into a pointer to a workflow and into one to a list, which may
-- leave the pointer nil, as it does for `null`.
pub record Http (Status : Type 0) : Type 0 where
  pub join : List String → String
  pub encode : Workflow → Option String
  pub makes_request : String → Bool
  pub put : String → String → Option (Option String)
  pub get_body : String → Option String
  pub unmarshal_workflow : String → Option Workflow
  pub unmarshal_status : String → Option Status
  pub decode_workflow : String → Decoded Workflow
  pub decode_list : String → Decoded (List Workflow)

-- The results of `Update`, the errors in the order of its returns.
pub data Update (Status : Type 0) : Type 0 where
  no_name not_encoded no_request not_reached not_read not_decoded : Update Status
  refused : Status → Update Status
  accepted : Workflow → Update Status

-- The results of `List` and `Get`: two errors, a nil result without an error, or a result.
pub data Fetched {ℓ} (A : Type ℓ) : Type ℓ where
  unreached undecoded nil_result : Fetched A
  fetched : A → Fetched A

abbrev pub namespaces_path : String
namespaces_path = "namespaces"

abbrev pub workflows_path : String
workflows_path = "workflows"

module _ {Status : Type 0} (http : Http Status) where
  -- `createURL`.
  unfoldable pub create_url : String → List String → String
  create_url base endpoint = base <> ("/" <> http.join endpoint)

  -- The path of the namespace, empty for no namespace.
  abbrev pub namespace_path : String → String
  namespace_path ns = if ns == "" then "" else http.join (namespaces_path ∷ ns ∷ [])

  -- What `Update` makes of the body that it read.
  unfoldable pub decode_answer : String → Update Status
  decode_answer data_read = elim (http.unmarshal_workflow data_read) [
    | some wf ↦ accepted wf
    | none ↦ elim (http.unmarshal_status data_read) [ some s ↦ refused s | none ↦ not_decoded ]
  ]

  -- `Update`, once the URL is made and the workflow is encoded.
  unfoldable pub put_workflow : String → String → Update Status
  put_workflow url body =
      if http.makes_request url
      then (elim (http.put url body) [
        | none ↦ not_reached
        | some none ↦ not_read
        | some (some data_read) ↦ decode_answer data_read
      ])
      else no_request

  -- The URL of one workflow.
  abbrev pub workflow_url : String → String → String → String
  workflow_url base ns name = create_url base (namespace_path ns ∷ workflows_path ∷ name ∷ [])

  -- `Update` of a client for a base URL and a namespace.
  unfoldable pub update : String → String → Workflow → Update Status
  update base ns wf = if wf.meta.name == "" then no_name else (elim (http.encode wf) [
    | none ↦ not_encoded
    | some body ↦ put_workflow (workflow_url base ns wf.meta.name) body
  ])

  -- The end of `List` and of `Get`.
  abbrev pub decode_body {ℓ} : {A : Type ℓ} → (String → Decoded A) → Option String → Fetched A
  decode_body decode none = unreached
  decode_body decode (some body) = elim (decode body) [
    | decode_error ↦ undecoded
    | decoded_nil ↦ nil_result
    | decoded a ↦ fetched a
  ]

  -- `List`.
  unfoldable pub list_workflows : String → String → Fetched (List Workflow)
  list_workflows base ns =
      decode_body http.decode_list
        (http.get_body (create_url base (namespace_path ns ∷ workflows_path ∷ [])))

  -- `Get`.
  unfoldable pub get_workflow : String → String → String → Fetched Workflow
  get_workflow base ns name =
      decode_body http.decode_workflow (http.get_body (workflow_url base ns name))

-- What a caller tells apart in the error of `Update`: none, a `StatusError`, another one.
abbrev pub update_answer : {Status : Type 0} → Update Status → UpdateAnswer
update_answer no_name = other_error
update_answer not_encoded = other_error
update_answer no_request = other_error
update_answer not_reached = other_error
update_answer not_read = other_error
update_answer not_decoded = other_error
update_answer (refused s) = status_error
update_answer (accepted wf) = updated

-- What `updateWorkflowStatus` makes of `Get`: the error, or `getWorkflow.ResourceVersion`, which a nil
-- workflow does not have.
abbrev pub version_of : Fetched Workflow → VersionAnswer
version_of unreached = not_brought
version_of undecoded = not_brought
version_of nil_result = brought_nil
version_of (fetched wf) = brought wf.meta.resource_version

-- The outside of the transitioner over this client: `tpClient.Workflows(ns).Update` and `Get`, with what
-- HTTP does at each question.
unfoldable pub over_client : {Status : Type 0} → Cluster → String → (ℕ → Http Status) → Cluster
over_client cluster base https = record cluster {
  update = λ i wf. update_answer (update (https i) base wf.meta.namespace wf);
  get_version = λ i ns name. version_of (get_workflow (https i) base ns name);
}
