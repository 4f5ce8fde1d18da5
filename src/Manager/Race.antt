-- ===== src/Manager/Race.antt =====
-- pkg/workflow/transitioner.go and pkg/workflow/manager.go between the calls: a worker that processes
-- one step of a workflow, and the informer that reports the step's jobs meanwhile. The worker lists the
-- step's jobs (`processJobStep`), looks whether the step's expectations are settled, creates a job, and
-- expects its creation (`createJobForStep`); the informer stores a job that the server has accepted,
-- and then calls `addJob`, which finds the workflow. Each of these is one move, and they come in any order. The queue gives the
-- workflow's key to one worker at a time.
pub mod Choice
pub mod Bound
pub mod Runs
pub mod Twice
use kubernetes_workflow.Base.{ℕ, suc, ◌-◌, ◌≤◌, String, List, [], ◌∷◌, true, false, ◌≡◌, length}
use kubernetes_workflow.GoMap.{made}
use kubernetes_workflow.Api.Meta.{JobTemplateSpec, Job}
use kubernetes_workflow.Api.Types.{Workflow}
use kubernetes_workflow.Expectations.{
  Expectations, expectations_timeout, expectations_satisfied, expect_creation,
}
use kubernetes_workflow.Expectations.Laws.{pending}
use kubernetes_workflow.Job.{workflow_job_label_set}
use kubernetes_workflow.Cache.{list_jobs}
use kubernetes_workflow.World.{Cluster}
use kubernetes_workflow.Transitioner.Steps.{key_of}
use kubernetes_workflow.Manager.{observe}

-- Where the worker is: it has listed the step's jobs, it has found the expectations settled, or the
-- server has accepted its job.
pub data Phase : Type 0 where
  idle cleared accepted : Phase
  listed : List Job → Phase

-- `stored` is the informer's store of jobs. Of the step's jobs, `unreported` are accepted by the server
-- and not stored yet, `unhandled` are stored, and `addJob` has not been called for them yet; `created`
-- were created so far. `crossed` counts the jobs that were stored after the worker had listed none, and
-- before it looked at the expectations.
pub record Race : Type 0 where
  pub phase : Phase
  pub expectations : Expectations
  pub stored : List Job
  pub unreported : ℕ
  pub unhandled : ℕ
  pub created : ℕ
  pub crossed : ℕ

abbrev pub crossing : Phase → ℕ → ℕ
crossing (listed []) n = suc n
crossing p n = n

-- The time is at most the timeout later than `start`.
abbrev pub InWindow : ℕ → ℕ → Type 0
InWindow start now = (start ≤ now) × (now - start ≤ expectations_timeout)

-- The step's jobs in the store.
abbrev pub jobs_of : Cluster → Workflow → JobTemplateSpec → String → List Job → List Job
jobs_of cluster wf template name stored =
    list_jobs cluster wf.meta.namespace (workflow_job_label_set wf template name) stored

-- A job of the step, as the server gives it out.
abbrev pub IsStepJob : Workflow → JobTemplateSpec → String → Job → Type 0
IsStepJob wf template name job =
    (job.meta.labels ≡ made (workflow_job_label_set wf template name))
    × (job.meta.namespace ≡ wf.meta.namespace)

-- The clock of the moves stays in the window that begins at `start`.
module _ (cluster : Cluster) (start : ℕ) (wf : Workflow) (template : JobTemplateSpec)
    (name : String) where
  -- One move of the worker, of the informer, or of the other workers.
  pub data Move : Race → Race → Type 0 where
    lists :
        (s : Race)
        → s.phase ≡ idle
        → Move s (record s { phase = listed (jobs_of cluster wf template name s.stored) })
    leaves :
        (s : Race) (job : Job) (jobs : List Job)
        → s.phase ≡ listed (job ∷ jobs)
        → Move s (record s { phase = idle })
    waits :
        (s : Race) (now : ℕ)
        → s.phase ≡ listed []
        → InWindow start now
        → expectations_satisfied now (key_of cluster wf) name s.expectations ≡ false
        → Move s (record s { phase = idle })
    clears :
        (s : Race) (now : ℕ)
        → s.phase ≡ listed []
        → InWindow start now
        → expectations_satisfied now (key_of cluster wf) name s.expectations ≡ true
        → Move s (record s { phase = cleared })
    fails : (s : Race) → s.phase ≡ cleared → Move s (record s { phase = idle })
    creates :
        (s : Race)
        → s.phase ≡ cleared
        → Move s
            (record s { phase = accepted; unreported = suc s.unreported; created = suc s.created })
    expects :
        (s : Race) (now : ℕ)
        → s.phase ≡ accepted
        → InWindow start now
        → Move s (record s {
          phase = idle;
          expectations = expect_creation now (key_of cluster wf) name s.expectations;
        })
    reports :
        (s : Race) (job : Job) (n : ℕ)
        → IsStepJob wf template name job
        → s.unreported ≡ suc n
        → Move s (record s {
          stored = job ∷ s.stored;
          unreported = n;
          unhandled = suc s.unhandled;
          crossed = crossing s.phase s.crossed;
        })
    handles :
        (s : Race) (job : Job) (n : ℕ)
        → IsStepJob wf template name job
        → s.unhandled ≡ suc n
        → Move s (record s {
          unhandled = n;
          expectations = (observe cluster job wf s.expectations).expectations;
        })
    -- What concerns other steps, and changes of the step's jobs in the store; none is deleted.
    elsewhere :
        (s : Race) (expectations : Expectations) (stored : List Job)
        → (pending expectations (key_of cluster wf) name
            ≡ pending s.expectations (key_of cluster wf) name)
        → length (jobs_of cluster wf template name stored)
          ≡ length (jobs_of cluster wf template name s.stored)
        → Move s (record s { expectations = expectations; stored = stored })

  -- Any number of moves.
  pub data Reach (s : Race) : Race → Type 0 where
    here : Reach s s
    next : {t u : Race} → Reach s t → Move t u → Reach s u

-- The worker has nothing in hand, and the step has no job.
pub record IsStart (cluster : Cluster) (wf : Workflow) (template : JobTemplateSpec) (name : String)
    (s : Race) : Type 0 where
  pub at_rest : s.phase ≡ idle
  pub none_stored : jobs_of cluster wf template name s.stored ≡ []
  pub none_unreported : s.unreported ≡ 0
  pub none_unhandled : s.unhandled ≡ 0
  pub none_created : s.created ≡ 0
  pub none_crossed : s.crossed ≡ 0
