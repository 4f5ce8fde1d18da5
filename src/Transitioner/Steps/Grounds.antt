-- ===== src/Transitioner/Steps/Grounds.antt =====
-- What the loop of `processSteps` carries on: which steps are complete for a reason, and which jobs were
-- created.
use kubernetes_workflow.Base.{
  ◌≤◌, All, String, List, [], ◌∷◌, Bool, false, some, ◌≡◌, inl, inr, refl, sym, ◌∙◌, subst, arith,
  In, String-cases,
}
use kubernetes_workflow.GoMap.{GoMap, entries}
use kubernetes_workflow.Api.Meta.{JobTemplateSpec, Job}
use kubernetes_workflow.Api.Types.{Workflow, WorkflowStep, WorkflowStepStatus}
use kubernetes_workflow.Api.Methods.{step_complete}
use kubernetes_workflow.Api.Laws.{Completed}
use kubernetes_workflow.Job.{workflow_job_label_set}
use kubernetes_workflow.World.{Cluster, World}
use kubernetes_workflow.Transitioner.Steps.{with_statuses}
use kubernetes_workflow.Transitioner.Steps.Contract.{Made}
use kubernetes_workflow.Transitioner.Steps.Found.{
  Listing, Listing-within, Listing-statuses, Done, Done-within,
}
use kubernetes_workflow.Transitioner.Steps.Round.{Round, Ready}
use kubernetes_workflow.Transitioner.Steps.Jobs.{Justified, Justified-within, JobsSince}

module _ (cluster : Cluster) (wf : Workflow) (w : World) where
  -- What the statuses of the loop say is complete was complete, or found finished.
  abbrev pub Grounded : GoMap WorkflowStepStatus → World → Type 0
  Grounded statuses v = (n : String) → Completed statuses n → Done cluster wf w.asked v.asked n

  All-Grounded :
      (statuses : GoMap WorkflowStepStatus) (v : World) (ds : List String)
      → Grounded statuses v
      → All (Completed statuses) ds
      → All (Done cluster wf w.asked v.asked) ds
  All-Grounded statuses v [] g h = tt
  All-Grounded statuses v (d ∷ ds) g h = (g d h.0, All-Grounded statuses v ds g h.1)

  Grounded-later :
      (statuses : GoMap WorkflowStepStatus) (v v' : World)
      → v.asked ≤ v'.asked
      → Grounded statuses v
      → Grounded statuses v'
  Grounded-later statuses v v' later g n complete =
      Done-within cluster wf w.asked v.asked w.asked v'.asked (omega arith) later n (g n complete)

  -- What was listed in a round was listed for the workflow at the start.
  listed_since :
      (st : GoMap WorkflowStepStatus) (wf' : Workflow) (name : String) (jobs : List Job)
      (v v' : World)
      → wf' ≡ with_statuses st wf
      → w.asked ≤ v.asked
      → Listing cluster wf' name v.asked v'.asked jobs
      → Listing cluster wf name w.asked v'.asked jobs
  listed_since st wf' name jobs v v' same from h =
      Listing-within cluster wf v.asked v'.asked w.asked v'.asked from (omega arith) name jobs (
        Listing-statuses cluster wf st name v.asked v'.asked jobs
          (subst (λ (x : Workflow). Listing cluster x name v.asked v'.asked jobs) same h))

  pub Round-Grounded :
      (st : GoMap WorkflowStepStatus) (wf' : Workflow) (name : String) (step : WorkflowStep)
      (v v' : World) (r : Workflow × Bool)
      → wf' ≡ with_statuses st wf
      → w.asked ≤ v.asked
      → Grounded wf'.status.statuses v
      → Round cluster wf' name step v r v'
      → Grounded r.0.status.statuses v'
  Round-Grounded st wf' name step v v' r same from g h n (held, found, complete) =
      let keep = Grounded-later wf'.status.statuses v v' h.later g n in
      elim (String-cases n name) [
        | inr other ↦ keep (held, sym (h.others n other) ∙ found, complete)
        | inl e ↦
            let at_name : Completed r.0.status.statuses name =
              subst (Completed r.0.status.statuses) e (held, found, complete) in
            elim (h.grounded at_name) [
              | inl before ↦ keep (subst (Completed wf'.status.statuses) (sym e) before)
              | inr (job, finished, only) ↦ inr (
                job,
                finished,
                subst (λ (x : String). Listing cluster wf x w.asked v'.asked (job ∷ [])) (sym e)
                    (listed_since st wf' name (job ∷ []) v v' same from only),
              )
            ]
      ]

  pub Justified-of :
      (st : GoMap WorkflowStepStatus) (wf' : Workflow) (name : String) (step : WorkflowStep)
      (template : JobTemplateSpec) (v v' : World)
      → wf' ≡ with_statuses st wf
      → w.asked ≤ v.asked
      → v.asked ≤ v'.asked
      → In (name, step) (entries wf.spec.steps)
      → step.job_template ≡ some template
      → step_complete wf.status.statuses name ≡ false
      → Grounded wf'.status.statuses v
      → Made wf'.meta.namespace (workflow_job_label_set wf' template name) v v'
      → Ready cluster wf' name step v v'
      → (job : Job) × (v'.created ≡ (wf.meta.namespace, job) ∷ v.created)
        × Justified cluster wf w.asked v'.asked (wf.meta.namespace, job)
  unfolding workflow_job_label_set
  Justified-of st wf' name step template v v' same from later listed kind incomplete g m ready =
      let unmatched = listed_since st wf' name [] v v' same from ready.unmatched in
      let resolved =
        All-Grounded wf'.status.statuses v' step.dependencies
          (Grounded-later wf'.status.statuses v v' later g) ready.resolved in
      subst
        (λ (x : Workflow).
          Made x.meta.namespace (workflow_job_label_set x template name) v v'
          → (job : Job) × (v'.created ≡ (wf.meta.namespace, job) ∷ v.created)
            × Justified cluster wf w.asked v'.asked (wf.meta.namespace, job))
        (sym same)
        (λ made_one. (
          made_one.job,
          made_one.added,
          record {
            name = name;
            step = step;
            template = template;
            listed = listed;
            kind = kind;
            incomplete = incomplete;
            namespaced = refl;
            labelled = made_one.labelled;
            resolved = resolved;
            unmatched = unmatched;
          },
        ))
        m

  pub JobsSince-refl : JobsSince cluster wf w w
  JobsSince-refl = record {
    jobs = [];
    added = refl;
    justified = tt;
    quiet = refl;
    later = omega arith;
  }

  -- The jobs so far, seen from a later world in which there is no other.
  pub JobsSince-later :
      (v v' : World)
      → v'.created ≡ v.created
      → v'.updates ≡ v.updates
      → v.asked ≤ v'.asked
      → JobsSince cluster wf w v
      → JobsSince cluster wf w v'
  JobsSince-later v v' c u l h = record {
    jobs = h.jobs;
    added = c ∙ h.added;
    justified =
        Justified-within cluster wf w.asked v.asked w.asked v'.asked (omega arith) l h.jobs
          h.justified;
    quiet = u ∙ h.quiet;
    later = omega (arith, l, h.later);
  }
