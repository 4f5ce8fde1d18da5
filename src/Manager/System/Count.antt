-- ===== src/Manager/System/Count.antt =====
-- What is counted in a sequence of events: the jobs created for a step, and the events that settle its
-- expectation.
use kubernetes_workflow.Base.{
  ℕ, ◌+◌, ◌-◌, String, List, [], ◌∷◌, Bool, true, false, not, Option, some, none, ◌==◌,
  if◌then◌else◌, ◌&&◌,
}
use kubernetes_workflow.GoMap.{lookup}
use kubernetes_workflow.Api.Meta.{Job}
use kubernetes_workflow.Api.Types.{Workflow}
use kubernetes_workflow.Job.{workflow_step_label_key}
use kubernetes_workflow.Job.Labels.{label_or_empty}
use kubernetes_workflow.World.{Cluster, Result, ok, panicked}
use kubernetes_workflow.Transitioner.Process.{is_missing}
use kubernetes_workflow.Manager.{job_workflow}
use kubernetes_workflow.Manager.System.{
  Event, worked, job_added, job_updated, job_deleted, workflow_added, workflow_updated,
  workflow_deleted, System, stored, advance,
}
use kubernetes_workflow.Manager.System.Fence.{count_named}

-- The jobs with the step's label that a worker's round for the key created.
unfoldable pub made_in_round : String → String → Event → System → System → ℕ
made_in_round key step (worked k) s s' =
    if k == key then count_named step s'.world.created - count_named step s.world.created else 0
made_in_round key step (job_added job) s s' = 0
made_in_round key step (job_updated old cur) s s' = 0
made_in_round key step (job_deleted deleted) s s' = 0
made_in_round key step (workflow_added wf) s s' = 0
made_in_round key step (workflow_updated wf) s s' = 0
made_in_round key step (workflow_deleted wf) s s' = 0

-- The informer has seen a job of the step.
abbrev pub observes : Cluster → String → String → Job → Result (Option Workflow) → Bool
observes cluster key step job panicked = false
observes cluster key step job (ok none) = false
observes cluster key step job (ok (some wf)) = elim (cluster.key_func wf.meta) [
  | none ↦ false
  | some k ↦ k == key && label_or_empty workflow_step_label_key job.meta.labels == step
]

-- What an event does settles the step's expectation: a job of the step is seen, or a worker finds the
-- workflow deleted.
unfoldable pub settles : Cluster → String → String → Event → System → Bool
settles cluster key step (worked k) s = k == key && is_missing (lookup k s.world.store)
settles cluster key step (job_added job) s =
    observes cluster key step job (job_workflow cluster job (stored s.world.store))
settles cluster key step (job_updated old cur) s = false
settles cluster key step (job_deleted deleted) s = false
settles cluster key step (workflow_added wf) s = false
settles cluster key step (workflow_updated wf) s = false
settles cluster key step (workflow_deleted wf) s = false

-- Nothing that happens settles the step's expectation.
unfoldable pub unsettled :
    Cluster → (Job → Job → Bool) → String → String → List Event → System → Bool
unsettled cluster deep_equal key step [] s = true
unsettled cluster deep_equal key step (e ∷ events) s =
    not (settles cluster key step e s)
    && unsettled cluster deep_equal key step events (advance cluster deep_equal e s)

-- The jobs with the step's label that the rounds for the key created.
unfoldable pub made_for : Cluster → (Job → Job → Bool) → String → String → List Event → System → ℕ
made_for cluster deep_equal key step [] s = 0
made_for cluster deep_equal key step (e ∷ events) s =
    let s' = advance cluster deep_equal e s in
    made_in_round key step e s s' + made_for cluster deep_equal key step events s'
