-- ===== src/Client/Requests/Retry.antt =====
-- `updateWorkflowStatus` over the client: conflicts that come as answers of HTTP.
use kubernetes_workflow.Base.{
  ℕ, zero, suc, ◌≤◌, String, false, some, none, ◌==◌, ◌≡◌, refl, ap, ◌∙◌,
}
use kubernetes_workflow.Api.Types.{Workflow}
use kubernetes_workflow.World.{Cluster, World, updated, status_error, ok}
use kubernetes_workflow.Transitioner.State.{retry_on_status_conflict}
use kubernetes_workflow.Transitioner.Status.{with_version, update_workflow_status}
use kubernetes_workflow.Transitioner.Status.Laws.{Conflicts, after, update_workflow_status_succeeds}
use kubernetes_workflow.Client.Requests.{
  Http, fetched, decode_answer, get_workflow, update_answer, version_of, over_client,
}
use kubernetes_workflow.Client.Requests.Laws.{
  Answered, Refuses, update-Answered, update_refused_iff,
}

module _ {Status : Type 0} (cluster : Cluster) (base : String) (https : ℕ → Http Status)
    (wf : Workflow) where
  -- At this question the server answers with a status, whatever the version of the workflow.
  abbrev pub RefusedAt : ℕ → Type 0
  RefusedAt i =
      (rv : String)
      → (body : String) × Refuses (https i) base wf.meta.namespace (with_version rv wf) body

  -- At this question the workflow is fetched.
  abbrev pub FetchedAt : ℕ → Type 0
  FetchedAt i =
      (got : Workflow) × (get_workflow (https i) base wf.meta.namespace wf.meta.name ≡ fetched got)

  -- At this question the server answers with a workflow.
  abbrev pub AcceptedAt : ℕ → Type 0
  AcceptedAt i =
      (rv : String)
      → (body : String) × Answered (https i) base wf.meta.namespace (with_version rv wf) body
        × ((x : Workflow) × ((https i).unmarshal_workflow body ≡ some x))

  -- From the question `i` on, `count` updates are refused, and the workflow is fetched after each.
  abbrev pub RefusedFrom : ℕ → ℕ → Type 0
  RefusedFrom zero i = Unit
  RefusedFrom (suc count) i = RefusedAt i × FetchedAt (suc i) × RefusedFrom count (suc (suc i))

  module _ (named : wf.meta.name == "" ≡ false) where
    refused_conflict :
        (i : ℕ) (rv : String)
        → RefusedAt i
        → (over_client cluster base https).update i (with_version rv wf) ≡ status_error
    unfolding over_client
    refused_conflict i rv refused =
        (update_refused_iff (https i) base wf.meta.namespace (with_version rv wf)).1
          (named, refused rv)

    accepted_updated :
        (i : ℕ) (rv : String)
        → AcceptedAt i
        → (over_client cluster base https).update i (with_version rv wf) ≡ updated
    unfolding over_client decode_answer
    accepted_updated i rv accepted =
        let (body, answered, (x, is_workflow)) = accepted rv in
        ap update_answer (
          update-Answered (https i) base wf.meta.namespace (with_version rv wf) body named answered)
        ∙ rw (is_workflow, decode_answer) refl

    RefusedFrom-Conflicts :
        (count i : ℕ) → RefusedFrom count i → Conflicts (over_client cluster base https) count i wf
    unfolding over_client
    RefusedFrom-Conflicts zero i refused = tt
    RefusedFrom-Conflicts (suc count) i (refused, (got, is_got), later) = (
      λ rv. refused_conflict i rv refused,
      (got.meta.resource_version, ap version_of is_got),
      RefusedFrom-Conflicts count (suc (suc i)) later,
    )

    -- Over the client, the update of a workflow with a name succeeds where the server answers at most
    -- three times with a status, the workflow is fetched each time, and then answers with a workflow.
    pub update_over_client_succeeds :
        (count : ℕ) (w : World)
        → count ≤ retry_on_status_conflict
        → RefusedFrom count w.asked
        → AcceptedAt (after (over_client cluster base https) count w.asked)
        → (update_workflow_status (over_client cluster base https) wf w).0 ≡ ok none
    update_over_client_succeeds count w few refused accepted =
        update_workflow_status_succeeds (over_client cluster base https) count wf w few
          (RefusedFrom-Conflicts count w.asked refused) (λ rv. accepted_updated _ rv accepted)
