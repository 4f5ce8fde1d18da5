-- ===== src/Tests/Manager.antt =====
-- The handlers and the registration at small inputs.
use kubernetes_workflow.Base.{
  ℕ, zero, suc, ◌<◌, ◌≤◌, String, List, [], ◌∷◌, Bool, true, false, some, ◌≡◌, ◌↔◌, refl, ltb,
  arith,
}
use kubernetes_workflow.GoMap.{made, lookup, insert, insert_all}
use kubernetes_workflow.Api.Meta.{Job}
use kubernetes_workflow.Expectations.{expectations_satisfied, expect_creation}
use kubernetes_workflow.Job.{workflow_job_label_set}
use kubernetes_workflow.Cache.{workflows_matching, job_workflows}
use kubernetes_workflow.World.{Cluster, ok, updated}
use kubernetes_workflow.Manager.{
  Handled, job_workflow, add_job, enqueue_workflow, enqueue_job_workflow, update_job,
}
use kubernetes_workflow.Manager.Laws.{add_job-settles}
use kubernetes_workflow.Registration.{
  GetAnswer, not_found, unreachable, was_created, register_third_party_resource,
}
use kubernetes_workflow.Registration.Laws.{register_creates}
use kubernetes_workflow.Samples.{fresh_workflow, sample_template, sample_job, sample_cluster}

abbrev handlers : Cluster
handlers = sample_cluster [] (λ i. updated)

-- A job of the step `a`.
abbrev job_of_a : Job
job_of_a = sample_job (made (workflow_job_label_set fresh_workflow sample_template "a")) []

-- What a run of the handlers computes with.
handlers_program : Unit {0}
unfolding update_job enqueue_job_workflow enqueue_workflow job_workflow job_workflows
    workflows_matching workflow_job_label_set insert_all insert lookup
handlers_program = tt

seen-a : job_workflow handlers job_of_a (fresh_workflow ∷ []) ≡ ok (some fresh_workflow)
unfolding handlers_program
seen-a = refl

updated-a :
    update_job handlers (λ old cur. false) job_of_a job_of_a (fresh_workflow ∷ []) ≡ ok ("wf" ∷ [])
unfolding handlers_program
updated-a = refl

add_job-settles_example :
    (h : Handled) × (add_job handlers job_of_a (fresh_workflow ∷ []) (expect_creation 7 "wf" "a" [])
      ≡ ok h)
    × (h.added ≡ "wf" ∷ [])
    × (expectations_satisfied 9 "wf" "a" h.expectations ≡ true)
add_job-settles_example =
    add_job-settles handlers job_of_a (fresh_workflow ∷ []) (expect_creation 7 "wf" "a" [])
      fresh_workflow sample_template "a" "wf" 9 seen-a refl refl

abbrev enqueued : List String
enqueued = "wf" ∷ []

-- The first request does not reach the server; the second one does not find the resource.
abbrev second_answers : ℕ → GetAnswer
second_answers zero = unreachable
second_answers (suc i) = not_found

abbrev third_try : ℕ → Bool
third_try i = ltb 1 i

waits_once : (k : ℕ) → 0 ≤ k → k < 1 → second_answers k ≡ unreachable
waits_once zero low high = refl
waits_once (suc k) low high = absurd (omega arith)

register_creates_example :
    (register_third_party_resource 2 second_answers third_try ≡ some was_created)
    ↔ ((t : ℕ) × (t < 5) × (third_try t ≡ true))
register_creates_example =
    register_creates 2 1 second_answers third_try (omega arith) waits_once refl
