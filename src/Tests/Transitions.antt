-- ===== src/Tests/Transitions.antt =====
-- The transitions of small workflows.
use kubernetes_workflow.Base.{
  inl, inr, ap, ℕ, zero, suc, String, List, [], ◌∷◌, false, none, some, ◌≡◌, ◌≢◌, refl, member,
}
use kubernetes_workflow.GoMap.{get, GoMap, made, lookup, insert}
use kubernetes_workflow.Api.Types.{Workflow}
use kubernetes_workflow.Validation.Workflow.{validate_workflow}
use kubernetes_workflow.World.{Cluster, World, UpdateAnswer, updated, status_error, other_error, ok}
use kubernetes_workflow.World.Runs.{Runs}
use kubernetes_workflow.Transitioner.State.{with_labels}
use kubernetes_workflow.Transitioner.Status.{retries_exceeded, update_workflow_status}
use kubernetes_workflow.Transitioner.Status.Laws.{
  Sent, update_workflow_status-Sent, update_workflow_status_exceeds,
}
use kubernetes_workflow.Transitioner.Steps.{process_steps}
use kubernetes_workflow.Transitioner.Steps.Completion.{process_rounds}
use kubernetes_workflow.Transitioner.Steps.Blocked.{Waits, process_rounds-Waits}
use kubernetes_workflow.Transitioner.Steps.Loop.{Stopped}
use kubernetes_workflow.Transitioner.Steps.Outcome.{Processed, process_steps-Processed}
use kubernetes_workflow.Transitioner.Process.{settled, transition_workflow}
use kubernetes_workflow.Transitioner.Process.Forgotten.{unsent_label_forgotten}
use kubernetes_workflow.Transitioner.Process.Declined.{IsLeft, transition_workflow-IsLeft}
use kubernetes_workflow.Transitioner.Steps.Ready.{IsReady, validate_workflow-IsReady}
use kubernetes_workflow.Samples.{keeps_given}
use kubernetes_workflow.GoMap.{keys, entries}
use kubernetes_workflow.Api.Types.{WorkflowStep}
use kubernetes_workflow.Api.Methods.{all_complete, step_complete, any_finished, is_finished}
use kubernetes_workflow.Validation.Sort.{
  remove, unwind, finish, visit_deps, visit, visit_keys, topological_sort,
}
use kubernetes_workflow.Validation.Workflow.{
  exclusive_errors, validate_workflow_steps, validate_workflow_spec,
}
use kubernetes_workflow.Transitioner.Process.{is_paused}
use kubernetes_workflow.Cache.{is_empty}
use kubernetes_workflow.Transitioner.Process.Creates.{MayCreate}
use kubernetes_workflow.Transitioner.Process.Safety.{transition_workflow-MayCreate}
use kubernetes_workflow.Samples.{
  sample_reference, chain, ring, fresh_workflow, sample_workflow, uid_labels, sample_cluster,
  sample_world,
}

abbrev calm : Cluster
calm = sample_cluster [] (λ i. updated)

-- The first update meets a conflict, the next one succeeds.
abbrev one_conflict : ℕ → UpdateAnswer
one_conflict zero = status_error
one_conflict (suc i) = updated

abbrev fresh_world : World
fresh_world = sample_world fresh_workflow

-- A workflow that is asked to pause.
abbrev paused_labels : GoMap String
paused_labels = made (("nerdalize.com/pause", "true") ∷ ("nerdalize.com/workflow-uid", "u1") ∷ [])

abbrev paused_workflow : Workflow
paused_workflow = sample_workflow paused_labels chain (made [])

-- A workflow with a cycle.
abbrev ring_workflow : Workflow
ring_workflow = sample_workflow uid_labels ring (made [])

abbrev invalid_labels : GoMap String
invalid_labels = made (("nerdalize.com/workflow-uid", "u1") ∷ ("nerdalize.com/valid", "false") ∷ [])

transition_workflow-MayCreate_example :
    Runs
      (λ t w'. MayCreate calm "wf" fresh_world w')
      (MayCreate calm "wf" fresh_world)
      (transition_workflow calm "wf" fresh_world)
transition_workflow-MayCreate_example = transition_workflow-MayCreate calm "wf" fresh_world

process_steps-Processed_example :
    Runs
      (Processed calm fresh_workflow fresh_world)
      (Stopped calm fresh_workflow fresh_world)
      (process_steps calm "wf" fresh_workflow fresh_world)
process_steps-Processed_example = process_steps-Processed calm fresh_workflow fresh_world "wf"

update_workflow_status-Sent_example :
    Sent fresh_workflow 4 fresh_world (update_workflow_status calm fresh_workflow fresh_world).1
update_workflow_status-Sent_example = update_workflow_status-Sent calm fresh_workflow fresh_world

update_workflow_status_exceeds_example :
    (update_workflow_status (sample_cluster [] (λ i. status_error)) fresh_workflow fresh_world).0
    ≡ ok (some retries_exceeded)
update_workflow_status_exceeds_example =
    update_workflow_status_exceeds (sample_cluster [] (λ i. status_error)) fresh_workflow
      fresh_world
      ((λ u. refl), ("2", refl), ((λ u. refl), ("2", refl), ((λ u. refl), ("2", refl), tt)))
      (λ u. refl)

-- What a run of the validation and of the preconditions computes with.
checks_program : Unit {0}
unfolding is_finished any_finished is_paused validate_workflow validate_workflow_spec
    validate_workflow_steps exclusive_errors topological_sort visit_keys visit visit_deps finish
    remove unwind member lookup insert
checks_program = tt

found-paused : lookup "wf" (sample_world paused_workflow).store ≡ some paused_workflow
unfolding lookup
found-paused = refl

paused-label : get "nerdalize.com/pause" paused_workflow.meta.labels ≡ some "true"
unfolding lookup
paused-label = refl

transition_workflow-IsLeft_example :
    Runs
      (IsLeft calm (sample_world paused_workflow))
      (λ v. ⊥)
      (transition_workflow calm "wf" (sample_world paused_workflow))
transition_workflow-IsLeft_example =
    transition_workflow-IsLeft calm "wf" paused_workflow (sample_world paused_workflow) found-paused
      (inr (inr paused-label))

has_errors : {A : Type 0} (l : List A) → is_empty l ≡ false → l ≢ []
has_errors [] h = cc
has_errors (x ∷ l) h = λ e. cc

ring-invalid : validate_workflow calm.rules ring_workflow ≢ []
unfolding checks_program
ring-invalid = has_errors (validate_workflow calm.rules ring_workflow) refl

labelled-invalid : validate_workflow calm.rules (with_labels invalid_labels ring_workflow) ≢ []
unfolding checks_program
labelled-invalid =
    has_errors (validate_workflow calm.rules (with_labels invalid_labels ring_workflow)) refl

-- An outside whose server refuses every update.
abbrev refusing : Cluster
refusing = sample_cluster [] (λ i. other_error)

abbrev refused_world : World
refused_world = (transition_workflow refusing "wf" (sample_world ring_workflow)).1

unsent_label_forgotten_example :
    ((transition_workflow refusing "wf" refused_world).0 ≡ ok settled)
    × ((transition_workflow refusing "wf" refused_world).1.updates ≡ refused_world.updates)
unfolding checks_program
unsent_label_forgotten_example =
    unsent_label_forgotten refusing "wf" ring_workflow "u1" invalid_labels
      (sample_world ring_workflow) refl (λ i. refl) refl refl refl ring-invalid refl
      labelled-invalid

fresh-valid : validate_workflow calm.rules fresh_workflow ≡ []
unfolding checks_program
fresh-valid = refl

fresh-unfinished :
    all_complete fresh_workflow.status.statuses (keys (entries fresh_workflow.spec.steps)) ≡ false
unfolding all_complete step_complete lookup
fresh-unfinished = refl

validate_workflow-IsReady_example :
    (name : String) × ((step : WorkflowStep) × IsReady fresh_workflow name step)
validate_workflow-IsReady_example =
    validate_workflow-IsReady calm.rules fresh_workflow keeps_given fresh-valid fresh-unfinished

-- A step with an external reference and no job template.
abbrev external_step : WorkflowStep
external_step = record {
  job_template = none;
  external_ref = some sample_reference;
  dependencies = [];
}

abbrev external_workflow : Workflow
external_workflow = sample_workflow uid_labels (("c", external_step) ∷ []) (made [])

external-Waits : Waits calm "wf" "c" external_workflow
unfolding checks_program step_complete
external-Waits = record {
  unfinished = refl;
  listed = inl refl;
  jobless = λ step there. elim there [
    | inl same ↦ ap (λ (e : String × WorkflowStep). e.1.job_template) same
    | inr none_in ↦ absurd none_in
  ];
  incomplete = refl;
}

process_rounds-Waits_example :
    Runs
      (λ wf' v. is_finished wf' ≡ false)
      (λ v. Unit {0})
      (process_rounds calm 9 "wf" external_workflow (sample_world external_workflow))
process_rounds-Waits_example =
    process_rounds-Waits calm "wf" "c" 9 external_workflow (sample_world external_workflow)
      external-Waits
