-- ===== src/Transitioner/Steps/Loop.antt =====
-- The loop of `processSteps`: which steps are complete after it, which jobs it created.
use kubernetes_workflow.Base.{
  String, List, [], ◌∷◌, Bool, true, false, ◌&&◌, ◌||◌, not, if◌then◌else◌, ◌≡◌, inl, inr, refl,
  ◌∙◌, ap, subst, arith, In, Bool-cases, String-cases,
}
use kubernetes_workflow.GoMap.{entries, keys}
use kubernetes_workflow.Api.Types.{Workflow, WorkflowStep}
use kubernetes_workflow.Api.Methods.{step_complete, all_complete}
use kubernetes_workflow.World.{Cluster, World, pure}
use kubernetes_workflow.World.Runs.{Runs, Runs-bind, Runs-map}
use kubernetes_workflow.Transitioner.Steps.{
  Progress, process_step, visit_step, visit_steps, with_statuses,
}
use kubernetes_workflow.Transitioner.Steps.Grounds.{Round-Grounded, Justified-of, JobsSince-later}
use kubernetes_workflow.Transitioner.Steps.Found.{Done}
use kubernetes_workflow.Api.Laws.{Completed}
use kubernetes_workflow.Transitioner.Steps.Round.{Round, Untouched, process_step-Round}
use kubernetes_workflow.Transitioner.Steps.Jobs.{KeepsComplete, Justified-within, JobsSince}

-- The state of the loop that began with `wf` in the world `w`.
pub record Sound (cluster : Cluster) (wf : Workflow) (w : World) (p : Progress) (w' : World)
    : Type 0 where
  pub same : p.workflow ≡ with_statuses p.workflow.status.statuses wf
  pub unchanged : p.complete ≡ true → p.workflow ≡ wf
  pub kept : KeepsComplete wf.status.statuses p.workflow.status.statuses
  pub grounded :
      (n : String) → Completed p.workflow.status.statuses n → Done cluster wf w.asked w'.asked n
  pub since : JobsSince cluster wf w w'

flags : (a b c d e : Bool) → c ≡ (a && b) → d ≡ (c && e) → d ≡ (a && (if not b then false else e))
flags a b c d e h k = ground arith

module _ (cluster : Cluster) (wf : Workflow) (w : World) where
  -- After a panic, too, every job that was created is justified.
  abbrev pub Stopped : World → Type 0
  Stopped w' = JobsSince cluster wf w w'

  -- A round keeps what is complete, since it changes the status of an incomplete step only.
  Round-kept :
      (wf' : Workflow) (name : String) (step : WorkflowStep) (v v' : World) (r : Workflow × Bool)
      → step_complete wf'.status.statuses name ≡ false
      → Round cluster wf' name step v r v'
      → KeepsComplete wf'.status.statuses r.0.status.statuses
  unfolding step_complete
  Round-kept wf' name step v v' r open_step h n complete = elim (String-cases n name) [
    | inl e ↦ cc (ap (step_complete wf'.status.statuses) e)
    | inr other ↦ rw (h.others n other, step_complete) complete
  ]

  not_complete_before :
      (name : String) {now : Bool}
      → (step_complete wf.status.statuses name ≡ true → now ≡ true)
      → now ≡ false
      → step_complete wf.status.statuses name ≡ false
  not_complete_before name k e = ground arith

  flag_done :
      (name : String) (p : Progress)
      → (p.complete ≡ true → p.workflow ≡ wf)
      → step_complete p.workflow.status.statuses name ≡ true
      → p.complete ≡ (p.complete && step_complete wf.status.statuses name)
  flag_done name p same done = elim (Bool-cases p.complete) [
    | inr unset ↦ ground arith
    | inl set ↦
        let complete =
          subst (λ (x : Workflow). step_complete x.status.statuses name ≡ true) (same set) done in
        ground arith
  ]

  flag_open :
      (name : String) (p : Progress)
      → (step_complete wf.status.statuses name ≡ true
          → step_complete p.workflow.status.statuses name ≡ true)
      → step_complete p.workflow.status.statuses name ≡ false
      → false ≡ (p.complete && step_complete wf.status.statuses name)
  flag_open name p k open_step = ground arith

  -- A round in the loop, whatever it does with the flags.
  Round-Sound :
      (p : Progress) (name : String) (step : WorkflowStep) (v v' : World) (r : Workflow × Bool)
      (needs : Bool)
      → Sound cluster wf w p v
      → In (name, step) (entries wf.spec.steps)
      → step_complete p.workflow.status.statuses name ≡ false
      → Round cluster p.workflow name step v r v'
      → Sound cluster wf w (record { workflow = r.0; needs_update = needs; complete = false }) v'
  Round-Sound p name step v v' r needs h listed open_step round =
      let new = r.0.status.statuses in
      let old = p.workflow.status.statuses in
      let k = Round-kept p.workflow name step v v' r open_step round in
      let start_open = not_complete_before name (h.kept name) open_step in
      record {
        same = round.same ∙ ap (with_statuses new) h.same;
        unchanged = λ e. cc;
        kept = λ n c. k n (h.kept n c);
        grounded =
            Round-Grounded cluster wf w old p.workflow name step v v' r h.same h.since.later
              h.grounded round;
        since = elim round.either [
          | inl unmade ↦ JobsSince-later cluster wf w v v' unmade round.quiet round.later h.since
          | inr (template, kind, m, ready) ↦
              let (job, added, justified) =
                Justified-of cluster wf w old p.workflow name step template v v' h.same
                  h.since.later round.later listed kind start_open h.grounded m ready in
              record {
                jobs = (wf.meta.namespace, job) ∷ h.since.jobs;
                added = added ∙ ap (λ l. (wf.meta.namespace, job) ∷ l) h.since.added;
                justified = (
                  justified,
                  Justified-within cluster wf w.asked v.asked w.asked v'.asked (omega arith)
                      round.later h.since.jobs h.since.justified,
                );
                quiet = round.quiet ∙ h.since.quiet;
                later = omega (arith, round.later, h.since.later);
              }
        ];
      }

  -- The flag `workflowComplete` after a step: it stays set if the step was complete from the start.
  abbrev Flagged : Progress → String → Progress → Type 0
  Flagged p name p' = p'.complete ≡ (p.complete && step_complete wf.status.statuses name)

  visit_step-Sound :
      (key name : String) (step : WorkflowStep) (p : Progress) (v : World)
      → Sound cluster wf w p v
      → In (name, step) (entries wf.spec.steps)
      → Runs
          (λ p' v'. Sound cluster wf w p' v' × Flagged p name p')
          Stopped
          (visit_step cluster key name step p v)
  unfolding visit_step
  visit_step-Sound key name step p v h listed =
      elim (Bool-cases (step_complete p.workflow.status.statuses name)) [
        | inl done ↦ simp done (h, flag_done name p h.unchanged done)
        | inr open_step ↦ simp open_step (
            Runs-bind (Round cluster p.workflow name step v)
              (λ p' v'. Sound cluster wf w p' v' × Flagged p name p') Stopped
              (process_step cluster key p.workflow name step)
              (λ r.
                pure (record {
                  workflow = r.0;
                  needs_update = r.1 || p.needs_update;
                  complete = false;
                }))
              v
              (Runs-map (Round cluster p.workflow name step v)
                (Round cluster p.workflow name step v) (Untouched cluster v) Stopped _
                (process_step-Round cluster key p.workflow name step v) (λ r v' round. round)
                (λ v' still. JobsSince-later cluster wf w v v' still.0 still.1 still.2 h.since))
              (λ r v' round. (
                Round-Sound p name step v v' r _ h listed open_step round,
                flag_open name p (h.kept name) open_step,
              )))
      ]

  -- The loop over `steps`, begun with the flag of `p`, ends in `p'`.
  abbrev pub Looped : Progress → List (String × WorkflowStep) → Progress → World → Type 0
  Looped p steps p' v' =
      Sound cluster wf w p' v'
      × (p'.complete ≡ (p.complete && all_complete wf.status.statuses (keys steps)))

  pub visit_steps-Looped :
      (key : String) (steps : List (String × WorkflowStep)) (p : Progress) (v : World)
      → Sound cluster wf w p v
      → ((e : String × WorkflowStep) → In e steps → In e (entries wf.spec.steps))
      → Runs (Looped p steps) Stopped (visit_steps cluster key steps p v)
  unfolding visit_steps all_complete
  visit_steps-Looped key [] p v h listed = (h, ground arith)
  visit_steps-Looped key ((name, step) ∷ steps) p v h listed =
      Runs-bind (λ p' v'. Sound cluster wf w p' v' × Flagged p name p')
        (Looped p ((name, step) ∷ steps)) Stopped (visit_step cluster key name step p)
        (visit_steps cluster key steps) v
        (visit_step-Sound key name step p v h (listed (name, step) (inl refl)))
        λ p' v' h'.
          Runs-map (Looped p' steps) (Looped p ((name, step) ∷ steps)) Stopped Stopped _
            (visit_steps-Looped key steps p' v' h'.0 (λ e m. listed e (inr m)))
            (λ p'' v'' h''. (
              h''.0,
              flags p.complete (step_complete wf.status.statuses name) p'.complete p''.complete _
                  h'.1 h''.1,
            ))
            (λ v'' stop. stop)
