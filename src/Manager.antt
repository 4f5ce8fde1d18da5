-- ===== src/Manager.antt =====
-- pkg/workflow/manager.go: the handlers of the informers' events, and a worker's round. The queue is
-- the library's: a handler is modelled by the keys that it gives to `queue.Add`, in their order.
pub mod Laws
pub mod System
pub mod Race
use kubernetes_workflow.Base.{
  ℕ, String, List, [], ◌∷◌, Bool, true, false, not, Option, some, none, if◌then◌else◌, ltb,
}
use kubernetes_workflow.Job.Labels.{label_or_empty}
use kubernetes_workflow.GoMap.{GoMap, get}
use kubernetes_workflow.Api.Meta.{Job}
use kubernetes_workflow.Api.Types.{Workflow}
use kubernetes_workflow.Api.Methods.{is_finished}
use kubernetes_workflow.Expectations.{Expectations, creation_observed}
use kubernetes_workflow.Job.{workflow_step_label_key}
use kubernetes_workflow.Cache.{Found, found, no_labels, none_found, job_workflows}
use kubernetes_workflow.World.{Cluster, Result, ok, panicked, World, Action, pure, ◌>>=◌}
use kubernetes_workflow.Transitioner.Process.{Transition, transition_workflow}

-- What an informer hands to `deleteJob`: a job, a tombstone that holds a job or something else, or
-- neither.
pub data Deleted : Type 0 where
  job_gone : Job → Deleted
  tombstone : Option Job → Deleted
  unknown_object : Deleted

-- The expectations after a handler, and the keys that it added to the queue.
pub record Handled : Type 0 where
  pub expectations : Expectations
  pub added : List String

-- `enqueueAfter`: the time that the worker sleeps, and the keys that are added then.
abbrev pub enqueue_after : String → ℕ → ℕ × List String
enqueue_after key d = (if ltb 0 d then d else 0, key ∷ [])

module _ (cluster : Cluster) where
  -- `enqueueWorkflow`: the key that is added, if there is one.
  unfoldable pub enqueue_workflow : Workflow → List String
  enqueue_workflow wf = elim (cluster.key_func wf.meta) [ none ↦ [] | some key ↦ key ∷ [] ]

  -- The `UpdateFunc` of the workflow informer.
  unfoldable pub update_workflow : Workflow → List String
  update_workflow cur = if not (is_finished cur) then enqueue_workflow cur else []

  -- `getJobWorkflow`, after its lookup: the first workflow found. An empty list, which the lookup does
  -- not give, would panic.
  abbrev pub first_found : Result (Found Workflow) → Result (Option Workflow)
  first_found panicked = panicked
  first_found (ok no_labels) = ok none
  first_found (ok none_found) = ok none
  first_found (ok (found [])) = panicked
  first_found (ok (found (wf ∷ wfs))) = ok (some wf)

  unfoldable pub job_workflow : Job → List Workflow → Result (Option Workflow)
  job_workflow job store = first_found (job_workflows cluster job store)

  -- What `addJob` does with the workflow of the job.
  unfoldable pub observe : Job → Workflow → Expectations → Handled
  observe job wf expectations = elim (cluster.key_func wf.meta) [
    | none ↦ record { expectations = expectations; added = [] }
    | some key ↦ record {
      expectations =
          (creation_observed key (label_or_empty workflow_step_label_key job.meta.labels)
            expectations).1;
      added = enqueue_workflow wf;
    }
  ]

  -- `addJob`.
  unfoldable pub add_job : Job → List Workflow → Expectations → Result Handled
  add_job job store expectations = elim (job_workflow job store) [
    | panicked ↦ panicked
    | ok none ↦ ok (record { expectations = expectations; added = [] })
    | ok (some wf) ↦ ok (observe job wf expectations)
  ]

  -- The end of `updateJob` and of `deleteJob`: the job's workflow is enqueued.
  unfoldable pub enqueue_job_workflow : Job → List Workflow → Result (List String)
  enqueue_job_workflow job store = elim (job_workflow job store) [
    | panicked ↦ panicked
    | ok none ↦ ok []
    | ok (some wf) ↦ ok (enqueue_workflow wf)
  ]

  -- `updateJob`; `deep_equal` is `Semantic.DeepEqual` on jobs.
  unfoldable pub update_job :
      (deep_equal : Job → Job → Bool) → Job → Job → List Workflow → Result (List String)
  update_job deep_equal old cur store =
      if deep_equal old cur then ok [] else enqueue_job_workflow cur store

  -- `deleteJob`.
  unfoldable pub delete_job_event : Deleted → List Workflow → Result (List String)
  delete_job_event (job_gone job) store = enqueue_job_workflow job store
  delete_job_event (tombstone (some job)) store = enqueue_job_workflow job store
  delete_job_event (tombstone none) store = ok []
  delete_job_event unknown_object store = ok []

  -- One round of `worker` for a key from the queue: the time to sleep, and the key that is added again
  -- after it, where the transition asks for that.
  unfoldable pub work : String → Action (Option (ℕ × String))
  work key = do
    t ← transition_workflow cluster key
    pure (if t.requeue then some (t.requeue_after, key) else none)
