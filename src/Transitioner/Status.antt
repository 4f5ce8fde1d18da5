-- ===== src/Transitioner/Status.antt =====
-- pkg/workflow/transitioner.go: `updateWorkflowStatus`, the update with its retries.
pub mod Laws
use kubernetes_workflow.Base.{
  ℕ, zero, suc, String, List, [], ◌∷◌, Bool, true, false, Option, some, none, if◌then◌else◌,
}
use kubernetes_workflow.Api.Types.{Workflow}
use kubernetes_workflow.World.{
  Cluster, UpdateAnswer, updated, status_error, other_error, not_brought, brought_nil, brought,
  World, Action, pure, ask, modify, or_panic, ◌>>=◌, ◌>>◌,
}
use kubernetes_workflow.Transitioner.State.{retry_on_status_conflict}

-- The errors that `updateWorkflowStatus` returns, in the order of its returns.
pub data UpdateError : Type 0 where
  retries_exceeded not_status_error get_failed : UpdateError

abbrev pub with_version : String → Workflow → Workflow
with_version rv wf = record wf { meta = record (wf.meta) { resource_version = rv } }

-- `Workflows(ns).Update(workflow)`: the workflow is sent.
unfoldable pub send_update : Cluster → Workflow → Action UpdateAnswer
send_update cluster wf =
    modify (λ w. record w { updates = wf ∷ w.updates }) >> ask (λ i. cluster.update i wf)

module _ (cluster : Cluster) where
  -- The loop, with `left` retries left: `left` is `retryOnStatusConflict - i`. A nil workflow has no
  -- resource version: the access panics.
  unfoldable pub update_attempts : (left : ℕ) → Workflow → String → Action (Option UpdateError)
  update_attempts zero wf rv = do
    answer ← send_update cluster (with_version rv wf)
    elim answer [ updated ↦ pure none | _ ↦ pure (some retries_exceeded) ]
  update_attempts (suc left) wf rv = do
    answer ← send_update cluster (with_version rv wf)
    elim answer [
      | updated ↦ pure none
      | other_error ↦ pure (some not_status_error)
      | status_error ↦ do
        got ← ask (λ i. cluster.get_version i wf.meta.namespace wf.meta.name)
        elim got [
          | not_brought ↦ pure (some get_failed)
          | brought_nil ↦ or_panic none
          | brought version ↦ update_attempts left wf version
        ]
    ]

  unfoldable pub update_workflow_status : Workflow → Action (Option UpdateError)
  update_workflow_status wf = update_attempts retry_on_status_conflict wf wf.meta.resource_version
