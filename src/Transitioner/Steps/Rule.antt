-- ===== src/Transitioner/Steps/Rule.antt =====
-- The rule of `processSteps`: what its smallest parts keep, the whole of it keeps, also where it panics.
use kubernetes_workflow.Base.{
  ℕ, suc, ◌≤◌, String, List, [], ◌∷◌, Bool, true, false, ◌||◌, some, none, ◌≡◌, refl, ◌∙◌, ap,
  arith, inl, inr, Bool-cases, Option-cases,
}
use kubernetes_workflow.GoMap.{entries, lookup}
use kubernetes_workflow.Api.Meta.{JobTemplateSpec, Job}
use kubernetes_workflow.Api.Types.{Workflow, WorkflowStep}
use kubernetes_workflow.Api.Methods.{step_complete, dependencies_resolved, add_complete_condition}
use kubernetes_workflow.Expectations.{Expectations, delete_expectations}
use kubernetes_workflow.World.{Cluster, World, Action, pure, ◌>>=◌}
use kubernetes_workflow.World.Runs.{Runs, Runs-bind, Runs-map}
use kubernetes_workflow.Transitioner.State.{update_entry, share_statuses}
use kubernetes_workflow.Transitioner.Steps.Contract.{update_step_status_ind}
use kubernetes_workflow.Transitioner.Steps.{
  Progress, create_job_for_step, update_step_status, reconcile, process_job_step, process_step,
  visit_step, visit_steps, conclude, process_steps, template_of,
}

-- What a property may speak of: the number of questions asked, the expectations, the jobs created and
-- the store.
abbrev pub Fact : Type 1
Fact = ℕ → Expectations → List (String × Job) → List (String × Workflow) → Type 0

abbrev pub At : Fact → World → Type 0
At P w = P w.asked w.expectations w.created w.store

-- A change of a stored workflow that leaves its name and its namespace.
abbrev pub SameName : (Workflow → Workflow) → Type 0
SameName f =
    (wf : Workflow)
    → ((f wf).meta.name ≡ wf.meta.name) × ((f wf).meta.namespace ≡ wf.meta.namespace)

-- `m` keeps `P`, and what it returns satisfies `Q`.
abbrev pub Keeping {ℓ} : {A : Type ℓ} → Fact → (A → Type 0) → Action A → Type 0
Keeping P Q m = (w : World) → At P w → Runs (λ a w'. Q a × At P w') (At P) (m w)

-- The smallest parts of a transition of `key` keep `P`: questions, the creation of a step's job for a
-- workflow with this key, the sharing of maps with the stored workflow, and the deletion of the
-- expectations of a deleted workflow.
pub record Parts (cluster : Cluster) (key : String) (P : Fact) : Type 0 where
  pub later :
      {i j : ℕ} {e : Expectations} {c : List (String × Job)} {s : List (String × Workflow)}
      → i ≤ j
      → P i e c s
      → P j e c s
  pub creates :
      (wf : Workflow) (name : String) (template : JobTemplateSpec)
      → cluster.key_func wf.meta ≡ some key
      → Keeping P (λ _. Unit) (create_job_for_step cluster wf name template)
  pub shares :
      {i : ℕ} {e : Expectations} {c : List (String × Job)} {s : List (String × Workflow)}
      (f : Workflow → Workflow)
      → SameName f
      → P i e c s
      → P i e c (update_entry key f s)
  pub forgets :
      {i : ℕ} {e : Expectations} {c : List (String × Job)} {s : List (String × Workflow)}
      → lookup key s ≡ none
      → P i e c s
      → P i (delete_expectations key e) c s

pub asked_more : {i : ℕ} → i ≤ suc i
asked_more = omega arith

pub asked_twice : {i : ℕ} → i ≤ suc (suc i)
asked_twice = omega arith

module _ (cluster : Cluster) (key : String) (P : Fact) (parts : Parts cluster key P) where
  open parts use {later, creates, shares, forgets}

  -- The result is the workflow with other statuses.
  abbrev SameMeta : Workflow → Workflow × Bool → Type 0
  SameMeta wf r = r.0.meta ≡ wf.meta

  abbrev Keeps {ℓ} : {A : Type ℓ} → (A → Type 0) → Action A → Type 0
  Keeps Q m = Keeping P Q m

  pub Keeps-bind :
      {A B : Type 0} (Q : A → Type 0) (R : B → Type 0) (m : Action A) (f : A → Action B)
      → Keeps Q m
      → ((a : A) → Q a → Keeps R (f a))
      → Keeps R (m >>= f)
  Keeps-bind Q R m f first next w h =
      Runs-bind (λ a w'. Q a × At P w') (λ b w'. R b × At P w') (At P) m f w (first w h)
        (λ a w' k. next a k.0 w' k.1)

  update_step_status-Keeps :
      (wf : Workflow) (name : String) (job : Job)
      → Keeps (SameMeta wf) (update_step_status cluster key wf name job)
  unfolding share_statuses
  update_step_status-Keeps wf name job w h =
      update_step_status_ind cluster (λ r w'. SameMeta wf r × At P w') (At P) key wf name job w
        (refl, h) h (λ ref statuses written. (refl, shares _ (λ x. (refl, refl)) h))

  module _ (wf : Workflow) (keyed : cluster.key_func wf.meta ≡ some key) where
    reconcile-Keeps :
        (name : String) (template : JobTemplateSpec) (jobs : List Job)
        → Keeps (SameMeta wf) (reconcile cluster key wf name template jobs)
    unfolding reconcile
    reconcile-Keeps name template [] =
        Keeps-bind (λ _. Unit) (SameMeta wf) (create_job_for_step cluster wf name template)
          (λ _. pure (wf, false)) (creates wf name template keyed) (λ a q w h. (refl, h))
    reconcile-Keeps name template (job ∷ []) = update_step_status-Keeps wf name job
    reconcile-Keeps name template (job ∷ other ∷ jobs) = λ w h. (refl, h)

    process_job_step-Keeps :
        (name : String) (step : WorkflowStep) (template : JobTemplateSpec)
        → Keeps (SameMeta wf) (process_job_step cluster key wf name step template)
    unfolding process_job_step
    process_job_step-Keeps name step template w h =
        elim (Bool-cases (dependencies_resolved step wf)) [
          | inr waiting ↦ simp waiting (refl, h)
          | inl resolved ↦ elim (Option-cases (template_of wf name)) [
            | inl none_own ↦ simp (resolved, none_own) h
            | inr (own, is_own) ↦
                simp (resolved, is_own) (reconcile-Keeps name template _ _ (later asked_more h))
          ]
        ]

    process_step-Keeps :
        (name : String) (step : WorkflowStep)
        → Keeps (SameMeta wf) (process_step cluster key wf name step)
    unfolding process_step
    process_step-Keeps name step w h = elim (Option-cases step.job_template) [
      | inr (template, kind) ↦
          rw (kind, process_step) (process_job_step-Keeps name step template w h)
      | inl no_template ↦ elim (Option-cases step.external_ref) [
        | inl no_ref ↦ rw (no_template, no_ref, process_step) (refl, h)
        | inr (ref, is_ref) ↦ rw (no_template, is_ref, process_step) (refl, h)
      ]
    ]

  -- The loop holds a workflow with the metadata of `wf`.
  abbrev SameProgress : Workflow → Progress → Type 0
  SameProgress wf p = p.workflow.meta ≡ wf.meta

  visit_step-Keeps :
      (name : String) (step : WorkflowStep) (p : Progress)
      → cluster.key_func p.workflow.meta ≡ some key
      → Keeps (SameProgress p.workflow) (visit_step cluster key name step p)
  unfolding visit_step
  visit_step-Keeps name step p keyed w h =
      elim (Bool-cases (step_complete p.workflow.status.statuses name)) [
        | inl done ↦ simp done (refl, h)
        | inr open_step ↦ simp open_step (
            Keeps-bind (SameMeta p.workflow) (SameProgress p.workflow)
              (process_step cluster key p.workflow name step)
              (λ r.
                pure (record {
                  workflow = r.0;
                  needs_update = r.1 || p.needs_update;
                  complete = false;
                }))
              (process_step-Keeps p.workflow keyed name step) (λ r same v k. (same, k)) w h)
      ]

  visit_steps-Keeps :
      (steps : List (String × WorkflowStep)) (p : Progress)
      → cluster.key_func p.workflow.meta ≡ some key
      → Keeps (SameProgress p.workflow) (visit_steps cluster key steps p)
  unfolding visit_steps
  visit_steps-Keeps [] p keyed w h = (refl, h)
  visit_steps-Keeps ((name, step) ∷ steps) p keyed w h =
      Keeps-bind (SameProgress p.workflow) (SameProgress p.workflow)
        (visit_step cluster key name step p) (visit_steps cluster key steps)
        (visit_step-Keeps name step p keyed)
        (λ p' same v g.
          Runs-map (λ q w'. SameProgress p'.workflow q × At P w')
            (λ q w'. SameProgress p.workflow q × At P w') (At P) (At P) _
            (visit_steps-Keeps steps p' (ap cluster.key_func same ∙ keyed) v g)
            (λ q w' k. (k.0 ∙ same, k.1)) (λ w' k. k))
        w h

  conclude-Keeps : (p : Progress) → Keeps (SameMeta p.workflow) (conclude cluster p)
  unfolding conclude add_complete_condition
  conclude-Keeps p w h = elim (Bool-cases p.complete) [
    | inl set ↦ simp set (refl, later asked_more h)
    | inr unset ↦ simp unset (refl, h)
  ]

  -- `processSteps` keeps `P`, and the workflow's metadata.
  pub process_steps-Keeps :
      (wf : Workflow)
      → cluster.key_func wf.meta ≡ some key
      → Keeping P (λ r. r.0.meta ≡ wf.meta) (process_steps cluster key wf)
  unfolding process_steps
  process_steps-Keeps wf keyed =
      let p : Progress = record { workflow = wf; needs_update = false; complete = true } in
      Keeps-bind (SameProgress wf) (SameMeta wf) (visit_steps cluster key (entries wf.spec.steps) p)
        (conclude cluster) (visit_steps-Keeps (entries wf.spec.steps) p keyed)
        (λ q same w h.
          Runs-map (λ r w'. SameMeta q.workflow r × At P w') (λ r w'. SameMeta wf r × At P w')
            (At P) (At P) _ (conclude-Keeps q w h) (λ r w' k. (k.0 ∙ same, k.1)) (λ w' k. k))
