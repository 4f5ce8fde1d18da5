-- ===== src/Tests/Completion.antt =====
-- A small workflow to its end.
use kubernetes_workflow.Base.{
  ℕ, String, [], ◌∷◌, true, some, ◌≡◌, refl, sym, ap, subst, In, inl, inr,
}
use kubernetes_workflow.GoMap.{made, entries, lookup, insert, insert_all}
use kubernetes_workflow.Api.Meta.{Job}
use kubernetes_workflow.Api.Types.{Workflow, WorkflowStep}
use kubernetes_workflow.Api.Methods.{
  is_finished, any_finished, set_defaults, set_labels, set_uid, add_labels,
}
use kubernetes_workflow.Validation.Sort.{
  remove, unwind, finish, visit_deps, visit, visit_keys, topological_sort,
}
use kubernetes_workflow.Validation.Workflow.{
  exclusive_errors, validate_workflow_steps, validate_workflow_spec, validate_workflow,
}
use kubernetes_workflow.Base.{member}
use kubernetes_workflow.Job.{workflow_job_label_set, any_job_finished, is_job_finished}
use kubernetes_workflow.Cache.{list_jobs}
use kubernetes_workflow.World.{Cluster, updated}
use kubernetes_workflow.Transitioner.Steps.{template_of}
use kubernetes_workflow.Transitioner.Steps.Finishing.{HasFinishedJobs}
use kubernetes_workflow.Transitioner.Process.{is_paused}
use kubernetes_workflow.Manager.System.{System}
use kubernetes_workflow.Manager.System.Turns.{turns}
use kubernetes_workflow.Manager.System.Created.{Runnable, created_finishes}
use kubernetes_workflow.Transitioner.State.{with_labels}
use kubernetes_workflow.Samples.{
  uid_labels, fresh_workflow, sample_workflow, chain, sample_template, sample_job, sample_world,
  sample_reference, complete_condition, sample_cluster, keeps_given,
}

-- A workflow that was given its labels.
abbrev labelled_workflow : Workflow
labelled_workflow =
    sample_workflow
      (made (("nerdalize.com/workflow-uid", "u1") ∷ ("nerdalize.com/valid", "true") ∷ [])) chain
      (made [])

-- The finished job of a step.
abbrev done_of : String → Job
done_of name =
    sample_job (made (workflow_job_label_set labelled_workflow sample_template name))
      (complete_condition ∷ [])

abbrev all_done : Cluster
all_done = sample_cluster (done_of "a" ∷ done_of "b" ∷ []) (λ i. updated)

completion_program : Unit {0}
unfolding validate_workflow validate_workflow_spec validate_workflow_steps exclusive_errors
    topological_sort visit_keys visit visit_deps finish remove unwind member lookup insert
    insert_all workflow_job_label_set list_jobs is_job_finished any_job_finished is_paused
completion_program = tt

done-finished : (name : String) → is_job_finished (done_of name) ≡ true
unfolding completion_program
done-finished name = refl

-- What holds for the two names holds for the names of the steps.
names_of_steps :
    (P : String → Type 0) (name : String) (step : WorkflowStep)
    → In (name, step) (entries labelled_workflow.spec.steps)
    → P "a"
    → P "b"
    → P name
names_of_steps P name step (inl is_b) at_a at_b =
    subst P (sym (ap (λ (e : String × WorkflowStep). e.0) is_b)) at_b
names_of_steps P name step (inr (inl is_a)) at_a at_b =
    subst P (sym (ap (λ (e : String × WorkflowStep). e.0) is_a)) at_a
names_of_steps P name step (inr (inr none_in)) at_a at_b = absurd none_in

template-kind :
    (step : WorkflowStep) (name : String)
    → In (name, step) (entries labelled_workflow.spec.steps)
    → step.job_template ≡ some sample_template
template-kind step name (inl is_b) = ap (λ (e : String × WorkflowStep). e.1.job_template) is_b
template-kind step name (inr (inl is_a)) = ap (λ (e : String × WorkflowStep). e.1.job_template) is_a
template-kind step name (inr (inr none_in)) = absurd none_in

Held : ℕ → String → Type 0
unfolding completion_program
Held question name =
    list_jobs all_done "ns" (workflow_job_label_set labelled_workflow sample_template name)
      (all_done.jobs question)
    ≡ done_of name ∷ []

Held-a : (question : ℕ) → Held question "a"
unfolding Held
Held-a question = refl

Held-b : (question : ℕ) → Held question "b"
unfolding Held
Held-b question = refl

own-a : template_of labelled_workflow "a" ≡ some sample_template
unfolding lookup
own-a = refl

own-b : template_of labelled_workflow "b" ≡ some sample_template
unfolding lookup
own-b = refl

all_done-HasFinishedJobs : HasFinishedJobs all_done labelled_workflow
unfolding Held
all_done-HasFinishedJobs = record {
  job_of = done_of;
  reference_of = λ name. sample_reference;
  template = λ name. sample_template;
  finished = done-finished;
  refers = λ name. refl;
  kind = λ name step listed. (
    template-kind step name listed,
    names_of_steps (λ n. template_of labelled_workflow n ≡ some sample_template) name step listed
        own-a own-b,
  );
  found = λ name step question listed.
      names_of_steps (Held question) name step listed (Held-a question) (Held-b question);
}

-- A workflow without labels, and what it is with its defaults.
abbrev new_workflow : Workflow
new_workflow = sample_workflow (made []) chain (made [])

abbrev with_defaults : ℕ → Workflow
with_defaults now = record fresh_workflow {
  spec = record (fresh_workflow.spec) {
    jobs_selector = some (record { match_labels = uid_labels; match_expressions = [] });
  };
  status = record (fresh_workflow.status) { start_time = some now };
}

with_defaults-set : (now : ℕ) → set_defaults now new_workflow ≡ some (with_defaults now)
unfolding set_defaults set_labels set_uid add_labels insert_all insert lookup
with_defaults-set now = refl

with_defaults-HasFinishedJobs :
    (now : ℕ)
    → HasFinishedJobs all_done (with_labels labelled_workflow.meta.labels (with_defaults now))
unfolding completion_program
with_defaults-HasFinishedJobs now =
    let known = all_done-HasFinishedJobs in
    record {
      job_of = known.job_of;
      reference_of = known.reference_of;
      template = known.template;
      finished = known.finished;
      refers = known.refers;
      kind = known.kind;
      found = known.found;
    }

with_defaults-Runnable : (now : ℕ) → Runnable all_done "wf" (with_defaults now)
unfolding completion_program
with_defaults-Runnable now = record {
  labels = labelled_workflow.meta.labels;
  valid = refl;
  written = refl;
  helps = record {
    jobs = with_defaults-HasFinishedJobs now;
    synced = λ i. refl;
    accepts = λ i sent same. refl;
    keyed = refl;
  };
}

abbrev new_system : System
new_system = record { world = sample_world new_workflow; added = [] }

created_finishes_example :
    (n : ℕ) × (wf' : Workflow) × (lookup "wf"
        (turns all_done (λ old cur. true) "wf" n new_system).world.store
      ≡ some wf')
    × (is_finished wf' ≡ true)
unfolding completion_program is_finished any_finished
created_finishes_example =
    created_finishes all_done (λ old cur. true) "wf" new_workflow with_defaults new_system
      (λ meta meta' same namespaces. ap some same) keeps_given with_defaults-set
      with_defaults-Runnable refl refl refl refl refl
