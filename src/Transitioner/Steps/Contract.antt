-- ===== src/Transitioner/Steps/Contract.antt =====
-- What the processing of one step does to the workflow and to the world.
use kubernetes_workflow.Base.{
  Bool, false, ℕ, ◌≤◌, ◌<◌, suc, arith, ap, String, List, ◌∷◌, true, Option, some, none, ◌≡◌, ◌≢◌,
  ◌⊎◌, inl, inr, refl, Bool-cases, Option-cases,
}
use kubernetes_workflow.GoMap.{GoMap, made, get, assign}
use kubernetes_workflow.Api.Meta.{JobTemplateSpec, ObjectReference, Job}
use kubernetes_workflow.Api.Types.{Workflow, WorkflowStepStatus}
use kubernetes_workflow.Job.{
  JobError, workflow_job_label_set, jobs_annotation_set, send_job, create_job,
}
use kubernetes_workflow.Expectations.{expectations_satisfied, expect_creation}
use kubernetes_workflow.World.{Cluster, World}
use kubernetes_workflow.World.Runs.{Runs, Runs-bind}
use kubernetes_workflow.Transitioner.Steps.{
  after_create, create_job_for_step, key_of, update_step_status, with_statuses, is_current,
}
use kubernetes_workflow.Transitioner.State.{share_statuses}
use kubernetes_workflow.Job.{is_job_finished}

-- The new list of created jobs is the old one.
abbrev pub Unmade : World → World → Type 0
Unmade w w' = w'.created ≡ w.created

-- A job with these labels was created in the namespace.
pub record Made (namespace : String) (labels : List (String × String)) (w w' : World) : Type 0 where
  pub job : Job
  pub added : w'.created ≡ (namespace, job) ∷ w.created
  pub labelled : job.meta.labels ≡ made labels

pub record Creation (namespace : String) (labels : List (String × String)) (e : Option JobError)
    (w w' : World) : Type 0 where
  pub quiet : w'.updates ≡ w.updates
  pub expected : w'.expectations ≡ w.expectations
  pub stored : w'.store ≡ w.store
  pub later : w.asked ≤ w'.asked
  pub either : (Unmade w w' × (e ≢ none)) ⊎ (Made namespace labels w w' × (e ≡ none))

Sum-cases {ℓ κ} :
    {A : Type ℓ} {B : Type κ} (s : A ⊎ B) → ((a : A) × (s ≡ inl a)) ⊎ ((b : B) × (s ≡ inr b))
Sum-cases (inl a) = inl (a, refl)
Sum-cases (inr b) = inr (b, refl)

module _ (cluster : Cluster) where
  Creation-failed :
      (namespace : String) (labels : List (String × String)) (e : JobError) (w : World)
      → Creation namespace labels (some e) w w
  Creation-failed namespace labels e w = record {
    quiet = refl;
    expected = refl;
    stored = refl;
    later = omega arith;
    either = inl (refl, λ h. cc);
  }

  send_job-Creation :
      (namespace : String) (labels : List (String × String)) (wf : Workflow) (job : Job) (w : World)
      → job.meta.labels ≡ made labels
      → Runs (λ e. Creation namespace labels e w) (λ w'. ⊥) (send_job cluster namespace wf job w)
  unfolding send_job
  send_job-Creation namespace labels wf job w l =
      elim (Bool-cases (cluster.accepts_job w.asked namespace job)) [
        | inl yes_made ↦ simp yes_made (record {
          quiet = refl;
          expected = refl;
          stored = refl;
          later = omega arith;
          either = inr (record { job = job; added = refl; labelled = l }, refl);
        })
        | inr refused ↦ simp refused (record {
          quiet = refl;
          expected = refl;
          stored = refl;
          later = omega arith;
          either = inl (refl, λ h. cc);
        })
      ]

  -- `CreateJob` does not panic, and makes a job with the step's labels exactly where it returns no
  -- error.
  pub create_job-Creation :
      (namespace : String) (template : JobTemplateSpec) (wf : Workflow) (name : String) (w : World)
      → Runs
          (λ e. Creation namespace (workflow_job_label_set wf template name) e w)
          (λ w'. ⊥)
          (create_job cluster namespace template wf name w)
  unfolding create_job
  create_job-Creation namespace template wf name w =
      let labels = workflow_job_label_set wf template name in
      elim (Sum-cases (jobs_annotation_set cluster wf)) [
        | inl (e, a) ↦ rw (a, create_job) (Creation-failed namespace labels e w)
        | inr (annotations, a) ↦ elim (Option-cases (cluster.object_meta_for wf)) [
          | inl m ↦ rw (a, m, create_job) (Creation-failed namespace labels _ w)
          | inr (meta, m) ↦ elim (Option-cases (cluster.convert_spec template.spec)) [
            | inl c ↦ rw (a, m, c, create_job) (Creation-failed namespace labels _ w)
            | inr (spec, c) ↦
                rw (a, m, c, create_job) (send_job-Creation namespace labels wf _ w refl)
          ]
        ]
      ]

  -- A job with the step's labels was created, whose expectations were settled, and its creation is
  -- expected from then on; or no job was, and the expectations are as they were.
  pub record Attempt (wf : Workflow) (name : String) (template : JobTemplateSpec) (w w' : World)
      : Type 0 where
    pub quiet : w'.updates ≡ w.updates
    pub stored : w'.store ≡ w.store
    pub later : w.asked < w'.asked
    pub either :
        Unmade w w' × (w'.expectations ≡ w.expectations)
        ⊎ Made wf.meta.namespace (workflow_job_label_set wf template name) w w'
          × (expectations_satisfied (cluster.now w.asked) (key_of cluster wf) name w.expectations
              ≡ true)
          × ((question : ℕ) × (w.asked < question)
              × (question < w'.asked)
              × (w'.expectations
                  ≡ expect_creation (cluster.now question) (key_of cluster wf) name w.expectations))

  after_create_quiet :
      (wf : Workflow) (name : String) (template : JobTemplateSpec) (e : Option JobError)
      (w w' : World)
      → (expectations_satisfied (cluster.now w.asked) (key_of cluster wf) name w.expectations
          ≡ true)
      → Creation wf.meta.namespace
          (workflow_job_label_set wf template name)
          e
          (record w { asked = suc w.asked })
          w'
      → Runs
          (λ u. Attempt wf name template w)
          (λ v. ⊥)
          (after_create cluster (key_of cluster wf) name e w')
  unfolding after_create
  after_create_quiet wf name template (some e) w w' sat c = record {
    quiet = c.quiet;
    stored = c.stored;
    later = omega (arith, c.later);
    either = elim c.either [
      | inl (same, _) ↦ inl (same, c.expected)
      | inr (made_one, none_e) ↦ cc none_e
    ];
  }
  after_create_quiet wf name template none w w' sat c = record {
    quiet = c.quiet;
    stored = c.stored;
    later = omega (arith, c.later);
    either = elim c.either [
      | inl (same, some_e) ↦ absurd (some_e refl)
      | inr (m, _) ↦ inr (
        record { job = m.job; added = m.added; labelled = m.labelled },
        sat,
        (
          w'.asked,
          omega (arith, c.later),
          omega arith,
          ap (expect_creation (cluster.now w'.asked) (key_of cluster wf) name) c.expected,
        ),
      )
    ];
  }

  pub create_job_for_step-Attempt :
      (wf : Workflow) (name : String) (template : JobTemplateSpec) (w : World)
      → Runs
          (λ u. Attempt wf name template w)
          (λ v. ⊥)
          (create_job_for_step cluster wf name template w)
  unfolding create_job_for_step
  create_job_for_step-Attempt wf name template w =
      elim (Bool-cases
        (expectations_satisfied (cluster.now w.asked) (key_of cluster wf) name w.expectations)) [
          | inr unsettled ↦ simp unsettled (record {
            quiet = refl;
            stored = refl;
            later = omega arith;
            either = inl (refl, refl);
          })
          | inl settled ↦ simp settled (
              Runs-bind
                (λ e.
                  Creation wf.meta.namespace (workflow_job_label_set wf template name) e
                    (record w { asked = suc w.asked }))
                (λ u. Attempt wf name template w) (λ v. ⊥)
                (create_job cluster wf.meta.namespace template wf name)
                (after_create cluster (key_of cluster wf) name) (record w { asked = suc w.asked })
                (create_job-Creation wf.meta.namespace template wf name _)
                (λ e w' c. after_create_quiet wf name template e w w' settled c))
        ]

  -- The branches of `updateStepStatus`: nothing is to be changed, the map of statuses is nil, or the
  -- status of the job is written.
  pub update_step_status_ind :
      (Q : Workflow × Bool → World → Type 0) (E : World → Type 0) (key : String) (wf : Workflow)
      (name : String) (job : Job) (w : World)
      → Q (wf, false) w
      → E w
      → ((ref : ObjectReference) (statuses : GoMap WorkflowStepStatus)
          → assign name
              (record { complete = is_job_finished job; reference = ref })
              wf.status.statuses
            ≡ some statuses
          → Q
              (with_statuses statuses wf, true)
              (share_statuses key (with_statuses statuses wf) w).1)
      → Runs Q E (update_step_status cluster key wf name job w)
  unfolding update_step_status share_statuses
  update_step_status_ind Q E key wf name job w still panics writes =
      elim (Option-cases (cluster.job_reference job)) [
        | inl absent ↦ rw (absent, update_step_status) still
        | inr (ref, found) ↦
            elim (Bool-cases (is_current (get name wf.status.statuses) (is_job_finished job))) [
              | inl current ↦ rw (found, update_step_status) (simp current still)
              | inr stale ↦
                  elim (Option-cases (
                    assign name (record { complete = is_job_finished job; reference = ref })
                      wf.status.statuses)) [
                        | inl nil ↦ rw (found, update_step_status) (simp (stale, nil) panics)
                        | inr (statuses, written) ↦
                            rw (found, update_step_status)
                              (simp (stale, written) (writes ref statuses written))
                      ]
            ]
      ]
