-- ===== src/Cache.antt =====
-- pkg/client/cache/listers.go: what is looked up in the informers' stores. A store is the list of its
-- objects, in the order in which `Store.List` gives them.
pub mod Laws
use kubernetes_workflow.Base.{
  String, List, [], ◌∷◌, ◌++◌, Bool, true, false, ◌&&◌, ◌||◌, not, Option, some, none, ◌==◌,
  if◌then◌else◌,
}
use kubernetes_workflow.GoMap.{GoMap, entries}
use kubernetes_workflow.Api.Meta.{Job, Pod, LabelSelector, namespace_all}
use kubernetes_workflow.Api.Types.{Workflow}
use kubernetes_workflow.World.{Cluster, Result, ok, panicked}

-- The outcome of `GetJobWorkflows` and of `GetPodJobs`: the objects found, or one of the two errors.
pub data Found {ℓ} (A : Type ℓ) : Type ℓ where
  found : List A → Found A
  no_labels none_found : Found A

abbrev pub is_empty {ℓ} : {A : Type ℓ} → List A → Bool
is_empty [] = true
is_empty (x ∷ xs) = false

-- The end of both functions: an error where nothing was found.
abbrev pub found_or_error {ℓ} : {A : Type ℓ} → List A → Found A
found_or_error [] = none_found
found_or_error (x ∷ xs) = found (x ∷ xs)

abbrev pub map_result {ℓ κ} : {A : Type ℓ} {B : Type κ} → (A → B) → Result A → Result B
map_result f (ok a) = ok (f a)
map_result f panicked = panicked

module _ (cluster : Cluster) where
  -- The loop of `GetJobWorkflows`. The error of `LabelSelectorAsSelector` is dropped, and then the
  -- selector is nil, on which `Matches` panics.
  unfoldable pub workflows_matching : Job → List Workflow → Result (List Workflow)
  workflows_matching job [] = ok []
  workflows_matching job (wf ∷ wfs) =
      let rest = workflows_matching job wfs in
      if not (wf.meta.namespace == job.meta.namespace)
      then rest
      else (elim (cluster.selector_matches wf.spec.jobs_selector job.meta.labels) [
        | none ↦ panicked
        | some true ↦ map_result (λ l. wf ∷ l) rest
        | some false ↦ rest
      ])

  -- `GetJobWorkflows`.
  unfoldable pub job_workflows : Job → List Workflow → Result (Found Workflow)
  job_workflows job store =
      if is_empty (entries job.meta.labels)
      then ok no_labels
      else map_result found_or_error (workflows_matching job store)

  -- The loop of `GetPodJobs`.
  unfoldable pub jobs_matching : Pod → List Job → Result (List Job)
  jobs_matching pod [] = ok []
  jobs_matching pod (job ∷ jobs) =
      let rest = jobs_matching pod jobs in
      if not (job.meta.namespace == pod.meta.namespace)
      then rest
      else (elim (cluster.selector_matches job.spec.selector pod.meta.labels) [
        | none ↦ panicked
        | some true ↦ map_result (λ l. job ∷ l) rest
        | some false ↦ rest
      ])

  -- `GetPodJobs`.
  unfoldable pub pod_jobs : Pod → List Job → Result (Found Job)
  pod_jobs pod store =
      if is_empty (entries pod.meta.labels)
      then ok no_labels
      else map_result found_or_error (jobs_matching pod store)

  -- `Jobs(namespace).List(selector)`, for the selector of a set of labels.
  unfoldable pub list_jobs : String → List (String × String) → List Job → List Job
  list_jobs namespace set [] = []
  list_jobs namespace set (job ∷ jobs) =
      let rest = list_jobs namespace set jobs in
      if (namespace == namespace_all || namespace == job.meta.namespace)
        && cluster.set_matches set job.meta.labels
      then job ∷ rest
      else rest

-- `Exists` of the two listers: the answer of `Store.Get`, or its error (`none`).
unfoldable pub exists_in {ℓ} : {A : Type ℓ} → (A → Option Bool) → A → Option Bool
exists_in store_get object = elim (store_get object) [ none ↦ none | some exists ↦ some exists ]

-- The loop of `List` of the two listers: every object of the store is appended.
unfoldable pub append_items {ℓ} : {A : Type ℓ} → List A → List A → List A
append_items items [] = items
append_items items (x ∷ store) = append_items (items ++ (x ∷ [])) store

-- `List`.
unfoldable pub list_all {ℓ} : {A : Type ℓ} → List A → List A
list_all store = append_items [] store
