-- ===== src/Tests/System.antt =====
-- The manager at work on a small workflow.
use kubernetes_workflow.Base.{
  ◌≤◌, List, [], ◌∷◌, true, some, ◌≡◌, ◌⊎◌, refl, ap, member, ◌==◌, Bool-cases, inl, inr, eq_iff,
  ◌∙◌, sym,
}
use mathlib.Core.Option.{some-injective}
use kubernetes_workflow.GoMap.{lookup, insert, insert_all}
use kubernetes_workflow.Api.Types.{Workflow}
use kubernetes_workflow.Api.Methods.{
  any_finished, is_finished, step_complete, dependencies_resolved,
}
use kubernetes_workflow.Validation.Sort.{
  remove, unwind, finish, visit_deps, visit, visit_keys, topological_sort,
}
use kubernetes_workflow.Validation.Workflow.{
  exclusive_errors, validate_workflow_steps, validate_workflow_spec, validate_workflow,
}
use kubernetes_workflow.Expectations.{expectations_satisfied, expect_creation, is_expired}
use kubernetes_workflow.Job.{workflow_job_label_set, create_job, send_job, jobs_annotation_set}
use kubernetes_workflow.Cache.{list_jobs}
use kubernetes_workflow.World.{Cluster, updated}
use kubernetes_workflow.Transitioner.State.{update_entry, share_labels}
use kubernetes_workflow.Transitioner.Status.{update_workflow_status, update_attempts, send_update}
use kubernetes_workflow.Transitioner.Steps.{
  after_create, create_job_for_step, reconcile, process_job_step, process_step, visit_step,
  visit_steps, conclude, process_steps,
}
use kubernetes_workflow.Transitioner.Process.{
  is_paused, is_workflow_valid, process_labelled, label_validity, process_by_labels, process,
  preconditions_met, finish_transition, transition_existing, transition_workflow,
}
use kubernetes_workflow.Transitioner.Process.Rule.{KeysByName}
use kubernetes_workflow.Manager.{work}
use kubernetes_workflow.Manager.System.{Event, worked, workflow_updated, System, advance, run}
use kubernetes_workflow.Manager.System.Keyed.{KeyedStore}
use kubernetes_workflow.Manager.System.Fence.{TimeoutPassed, count_named}
use kubernetes_workflow.Manager.System.Count.{made_in_round, settles, unsettled, made_for}
use kubernetes_workflow.Manager.System.Once.{made_for_once}
use kubernetes_workflow.Samples.{fresh_workflow, sample_cluster, sample_world}

abbrev busy : Cluster
busy = sample_cluster [] (λ i. updated)

abbrev fresh_system : System
fresh_system = record { world = sample_world fresh_workflow; added = [] }

-- The workflow is processed twice; between the rounds the informer reports it again.
abbrev two_rounds : List Event
two_rounds = worked "wf" ∷ workflow_updated fresh_workflow ∷ worked "wf" ∷ []

keys_by_name : KeysByName busy
keys_by_name = λ meta other named placed. ap some named

fresh-KeyedStore : KeyedStore busy fresh_system.world.store
unfolding lookup
fresh-KeyedStore k wf found = elim (Bool-cases ("wf" == k)) [
  | inl same ↦
      ap (λ (x : Workflow). some x.meta.name) (sym (some-injective _ _ (simp same at found)))
      ∙ ap some ((eq_iff "wf" k).0 same)
  | inr other ↦ cc (simp other at found)
]

-- What a run of the manager computes with.
system_program : Unit {0}
unfolding run advance work transition_workflow transition_existing preconditions_met process
    process_by_labels label_validity process_labelled finish_transition is_workflow_valid
    update_workflow_status update_attempts send_update process_steps visit_steps visit_step conclude
    process_step process_job_step reconcile create_job_for_step after_create create_job send_job
    workflow_job_label_set list_jobs step_complete dependencies_resolved expectations_satisfied
    expect_creation is_expired is_finished any_finished is_paused validate_workflow
    validate_workflow_spec validate_workflow_steps exclusive_errors topological_sort visit_keys
    visit visit_deps finish remove unwind member lookup insert insert_all update_entry share_labels
    jobs_annotation_set settles unsettled made_for
system_program = tt

two_rounds-unsettled : unsettled busy (λ old cur. true) "wf" "a" two_rounds fresh_system ≡ true
unfolding system_program
two_rounds-unsettled = refl

-- The first round creates a job for the step, the second one does not.
two_rounds-made : made_for busy (λ old cur. true) "wf" "a" two_rounds fresh_system ≡ 1
unfolding system_program count_named made_in_round
two_rounds-made = refl

made_for_once_example :
    TimeoutPassed busy 0 (run busy (λ old cur. true) two_rounds fresh_system).world.asked
    ⊎ (made_for busy (λ old cur. true) "wf" "a" two_rounds fresh_system ≤ 1)
made_for_once_example =
    made_for_once busy (λ old cur. true) "wf" "a" two_rounds fresh_system keys_by_name
      fresh-KeyedStore two_rounds-unsettled
