-- ===== src/Transitioner/Steps/Round.antt =====
-- What the processing of one step does to the workflow: it changes the step's own status at most.
use kubernetes_workflow.Base.{
  suc, ◌≤◌, String, List, [], ◌∷◌, Bool, false, some, none, ◌≡◌, ◌≢◌, ◌⊎◌, inl, inr, refl, sym, ◌∙◌,
  ap, true, eq_refl, subst, arith, All, Bool-cases, Option-cases, ne→eq_false,
}
use mathlib.Core.Option.{some-injective}
use kubernetes_workflow.GoMap.{GoMap, get, assign}
use kubernetes_workflow.GoMap.Laws.{get-assign}
use kubernetes_workflow.Api.Meta.{JobTemplateSpec, ObjectReference, Job}
use kubernetes_workflow.Api.Types.{Workflow, WorkflowStep, WorkflowStepStatus}
use kubernetes_workflow.Api.Methods.{dependencies_resolved}
use kubernetes_workflow.Api.Laws.{Completed, all_complete_iff}
use kubernetes_workflow.Job.{workflow_job_label_set, is_job_finished}
use kubernetes_workflow.Job.Labels.{is_job_finished_iff}
use kubernetes_workflow.World.{Cluster, World, ok, pure, ◌>>◌}
use kubernetes_workflow.World.Runs.{Runs, Runs-bind, Runs-map}
use kubernetes_workflow.Transitioner.State.{share_statuses}
use kubernetes_workflow.Transitioner.Steps.{
  create_job_for_step, update_step_status, reconcile, process_job_step, process_step,
  process_external_reference_step, with_statuses, template_of,
}
use kubernetes_workflow.Transitioner.Steps.Found.{Listing, Listing-within, Done}
use kubernetes_workflow.Transitioner.Steps.Contract.{
  Made, Attempt, create_job_for_step-Attempt, update_step_status_ind,
}

module _ (cluster : Cluster) where
  -- Why a job may be created for the step `name`, a step of `wf`: its
  -- dependencies are complete, and the store listed no job for it between `w` and `w'`.
  pub record Ready (wf : Workflow) (name : String) (step : WorkflowStep) (w w' : World)
      : Type 0 where
    pub resolved : All (Completed wf.status.statuses) step.dependencies
    pub unmatched : Listing cluster wf name w.asked w'.asked []

  -- What a round for the step `name` leaves behind, from the world `w`.
  pub record Round (wf : Workflow) (name : String) (step : WorkflowStep) (w : World)
      (r : Workflow × Bool) (w' : World) : Type 0 where
    pub same : r.0 ≡ with_statuses r.0.status.statuses wf
    pub others : (n : String) → n ≢ name → get n r.0.status.statuses ≡ get n wf.status.statuses
    pub grounded : Completed r.0.status.statuses name → Done cluster wf w.asked w'.asked name
    pub quiet : w'.updates ≡ w.updates
    pub later : w.asked ≤ w'.asked
    pub either :
        (w'.created ≡ w.created)
        ⊎ ((template : JobTemplateSpec) × (step.job_template ≡ some template)
            × Made wf.meta.namespace (workflow_job_label_set wf template name) w w'
            × Ready wf name step w w')

  -- A panic comes before any job or update.
  abbrev pub Untouched : World → World → Type 0
  Untouched w w' = (w'.created ≡ w.created) × (w'.updates ≡ w.updates) × (w.asked ≤ w'.asked)

  module _ (wf : Workflow) (name : String) (step : WorkflowStep) (w w' : World)
      (c : w'.created ≡ w.created) (u : w'.updates ≡ w.updates) (l : w.asked ≤ w'.asked) where
    Round-still : (b : Bool) → Round wf name step w (wf, b) w'
    Round-still b = record {
      same = refl;
      others = λ n other. refl;
      grounded = λ complete. inl complete;
      quiet = u;
      later = l;
      either = inl c;
    }

    -- A status that is written under the step's name and says that the step is complete was made of
    -- a finished job.
    written_finished :
        (job : Job) (ref : ObjectReference) (statuses : GoMap WorkflowStepStatus)
        → assign name
            (record { complete = is_job_finished job; reference = ref })
            wf.status.statuses
          ≡ some statuses
        → Completed statuses name
        → is_job_finished job ≡ true
    written_finished job ref statuses written (st, found, complete) =
        let made_of : WorkflowStepStatus = record {
          complete = is_job_finished job;
          reference = ref;
        } in
        let now : get name statuses ≡ some made_of =
          get-assign name name made_of wf.status.statuses statuses written
          ∙ rw (eq_refl name) refl in
        ap (λ (x : WorkflowStepStatus). x.complete) (some-injective _ _ (sym now ∙ found))
        ∙ complete

    update_step_status-Round :
        (key : String) (job : Job)
        → Listing cluster wf name w.asked w'.asked (job ∷ [])
        → Runs (Round wf name step w) (Untouched w) (update_step_status cluster key wf name job w')
    unfolding share_statuses
    update_step_status-Round key job only =
        update_step_status_ind cluster (Round wf name step w) (Untouched w) key wf name job w'
          (Round-still false) (c, u, l)
          (λ ref statuses written. record {
            same = refl;
            others = λ n other.
                (get-assign n name _ wf.status.statuses statuses written
                  ∙ rw (ne→eq_false name n (λ e. other (sym e))) refl);
            grounded = λ complete. inr (
              job,
              (is_job_finished_iff job).0 (written_finished job ref statuses written complete),
              only,
            );
            quiet = u;
            later = l;
            either = inl c;
          })

    create_Round :
        (template : JobTemplateSpec)
        → step.job_template ≡ some template
        → Ready wf name step w w'
        → Runs
            (Round wf name step w)
            (Untouched w)
            ((create_job_for_step cluster wf name template >> pure (wf, false)) w')
    create_Round template kind ready =
        Runs-bind (λ a. Attempt cluster wf name template w') (Round wf name step w) (Untouched w)
          (create_job_for_step cluster wf name template) (λ _. pure (wf, false)) w'
          (Runs-map (λ a. Attempt cluster wf name template w')
            (λ a. Attempt cluster wf name template w') (λ v. ⊥) (Untouched w) _
            (create_job_for_step-Attempt cluster wf name template w') (λ a v h. h)
            (λ v h. absurd h))
          λ a v h. record {
            same = refl;
            others = λ n other. refl;
            grounded = λ complete. inl complete;
            quiet = h.quiet ∙ u;
            later = omega (arith, l, h.later);
            either = elim h.either [
              | inl (unmade, _) ↦ inl (unmade ∙ c)
              | inr (m, settled, _) ↦ inr (
                template,
                kind,
                record { job = m.job; added = rw (← c) m.added; labelled = m.labelled },
                record {
                  resolved = ready.resolved;
                  unmatched =
                      Listing-within cluster wf w.asked w'.asked w.asked v.asked (omega arith)
                        (omega (arith, h.later)) name [] ready.unmatched;
                },
              )
            ];
          }

    reconcile-Round :
        (key : String) (template : JobTemplateSpec) (jobs : List Job)
        → step.job_template ≡ some template
        → All (Completed wf.status.statuses) step.dependencies
        → Listing cluster wf name w.asked w'.asked jobs
        → Runs (Round wf name step w) (Untouched w) (reconcile cluster key wf name template jobs w')
    unfolding reconcile
    reconcile-Round key template [] kind resolved found =
        create_Round template kind (record { resolved = resolved; unmatched = found })
    reconcile-Round key template (job ∷ []) kind resolved found =
        update_step_status-Round key job found
    reconcile-Round key template (job ∷ other ∷ jobs) kind resolved found = Round-still false

  process_job_step-Round :
      (wf : Workflow) (name : String) (step : WorkflowStep) (template : JobTemplateSpec)
      (kind : step.job_template ≡ some template) (key : String) (w : World)
      → Runs
          (Round wf name step w)
          (Untouched w)
          (process_job_step cluster key wf name step template w)
  unfolding process_job_step dependencies_resolved
  process_job_step-Round wf name step template kind key w =
      elim (Bool-cases (dependencies_resolved step wf)) [
        | inr waiting ↦ simp waiting (Round-still wf name step w w refl refl (omega arith) false)
        | inl resolved ↦ elim (Option-cases (template_of wf name)) [
          | inl none_own ↦ simp (resolved, none_own) (refl, refl, omega arith)
          | inr (own, is_own) ↦
              simp (resolved, is_own)
                (reconcile-Round wf name step w (record w { asked = suc w.asked }) refl refl
                  (omega arith) key template _ kind
                  ((all_complete_iff wf.status.statuses step.dependencies).0 resolved)
                  (record {
                    own = own;
                    is_own = is_own;
                    question = w.asked;
                    low = omega arith;
                    high = omega arith;
                    found = refl;
                  }))
        ]
      ]

  -- A step without a job template is left alone.
  pub process_step_external :
      (key : String) (wf : Workflow) (name : String) (step : WorkflowStep) (w : World)
      → step.job_template ≡ none
      → process_step cluster key wf name step w ≡ (ok (wf, false), w)
  unfolding process_step process_external_reference_step
  process_step_external key wf name step w no_template = ground arith

  pub process_step_job :
      (key : String) (wf : Workflow) (name : String) (step : WorkflowStep)
      (template : JobTemplateSpec) (w : World)
      → step.job_template ≡ some template
      → process_step cluster key wf name step w
        ≡ process_job_step cluster key wf name step template w
  unfolding process_step
  process_step_job key wf name step template w kind = ground arith

  -- A round changes the status of its own step at most, sends nothing, and creates at most one job:
  -- one of this step, with the step's labels, where the dependencies are complete and the store listed
  -- no job for the step. A step becomes complete only where the store listed one job for it, a
  -- finished one.
  pub process_step-Round :
      (key : String) (wf : Workflow) (name : String) (step : WorkflowStep) (w : World)
      → Runs (Round wf name step w) (Untouched w) (process_step cluster key wf name step w)
  unfolding process_step
  process_step-Round key wf name step w = elim (Option-cases step.job_template) [
    | inr (template, kind) ↦
        subst (Runs (Round wf name step w) (Untouched w))
          (sym (process_step_job key wf name step template w kind))
          (process_job_step-Round wf name step template kind key w)
    | inl no_template ↦
        subst (Runs (Round wf name step w) (Untouched w))
          (sym (process_step_external key wf name step w no_template))
          (Round-still wf name step w w refl refl (omega arith) false)
  ]
