-- ===== src/Transitioner/Steps/Blocked.antt =====
-- A step that has no job template, such as one with an external reference: nothing processes it.
use kubernetes_workflow.Base.{
  ℕ, zero, suc, String, List, [], ◌∷◌, Bool, true, false, ◌||◌, Option, none, some, ◌≡◌, inl, inr,
  refl, sym, ap, ◌∙◌, subst, In, All, Bool-cases, String-cases,
}
use kubernetes_workflow.GoMap.{GoMap, entries, keys, get}
use kubernetes_workflow.Api.Types.{Workflow, WorkflowSpec, WorkflowStep, WorkflowStepStatus}
use kubernetes_workflow.Api.Methods.{
  step_complete, all_complete, any_finished, is_finished, add_complete_condition,
}
use kubernetes_workflow.Api.Laws.{Completed, step_complete_iff, all_complete_iff}
use kubernetes_workflow.World.{Cluster, World, pure}
use kubernetes_workflow.World.Runs.{Runs, Runs-bind, Runs-map, Runs-both}
use kubernetes_workflow.Transitioner.Steps.{
  Progress, process_step, visit_step, visit_steps, conclude, process_steps,
}
use kubernetes_workflow.Transitioner.Steps.Round.{
  Round, Untouched, process_step-Round, process_step_external,
}
use kubernetes_workflow.Transitioner.Steps.Loop.{Stopped}
use kubernetes_workflow.Transitioner.Steps.Outcome.{Processed, process_steps-Processed}
use kubernetes_workflow.Transitioner.Steps.Completion.{process_rounds}

-- The step under the name has no job template.
abbrev pub IsJobless : String → List (String × WorkflowStep) → Type 0
IsJobless name steps = (step : WorkflowStep) → In (name, step) steps → step.job_template ≡ none

All-In :
    (P : String → Type 0) (name : String) (names : List String)
    → All P names
    → In name names
    → P name
All-In P name [] all there = absurd there
All-In P name (x ∷ names) all (inl same) = subst P (sym same) all.0
All-In P name (x ∷ names) all (inr there) = All-In P name names all.1 there

-- A list of names with an incomplete step.
not-all_complete :
    (statuses : GoMap WorkflowStepStatus) (name : String) (names : List String)
    → In name names
    → step_complete statuses name ≡ false
    → all_complete statuses names ≡ true
    → ⊥
not-all_complete statuses name names there incomplete all = cc (
  incomplete,
  (step_complete_iff statuses name).1
      (All-In (Completed statuses) name names ((all_complete_iff statuses names).0 all) there),
)

module _ (cluster : Cluster) (key name : String) where
  -- The status of the step is as it was.
  abbrev Kept : Workflow → Workflow → Type 0
  Kept wf wf' = get name wf'.status.statuses ≡ get name wf.status.statuses

  process_step-Kept :
      (wf : Workflow) (n : String) (step : WorkflowStep) (w : World)
      → (n ≡ name → step.job_template ≡ none)
      → Runs (λ r v. Kept wf r.0) (λ v. Unit {0}) (process_step cluster key wf n step w)
  process_step-Kept wf n step w jobless = elim (String-cases n name) [
    | inl same ↦
        subst (Runs (λ r v. Kept wf r.0) (λ v. Unit))
          (sym (process_step_external cluster key wf n step w (jobless same))) refl
    | inr other ↦
        Runs-map (Round cluster wf n step w) (λ r v. Kept wf r.0) (Untouched cluster w) (λ v. Unit)
          _ (process_step-Round cluster key wf n step w)
          (λ r v round. round.others name (λ e. other (sym e))) (λ v u. tt)
  ]

  visit_step-Kept :
      (n : String) (step : WorkflowStep) (p : Progress) (w : World)
      → (n ≡ name → step.job_template ≡ none)
      → Runs (λ q v. Kept p.workflow q.workflow) (λ v. Unit {0}) (visit_step cluster key n step p w)
  unfolding visit_step
  visit_step-Kept n step p w jobless =
      elim (Bool-cases (step_complete p.workflow.status.statuses n)) [
        | inl done ↦ simp done refl
        | inr open_step ↦ simp open_step (
            Runs-bind (λ r v. Kept p.workflow r.0) (λ q v. Kept p.workflow q.workflow) (λ v. Unit)
              (process_step cluster key p.workflow n step)
              (λ r.
                pure (record {
                  workflow = r.0;
                  needs_update = r.1 || p.needs_update;
                  complete = false;
                }))
              w (process_step-Kept p.workflow n step w jobless) (λ r v kept. kept))
      ]

  visit_steps-Kept :
      (steps : List (String × WorkflowStep)) (p : Progress) (w : World)
      → IsJobless name steps
      → Runs (λ q v. Kept p.workflow q.workflow) (λ v. Unit {0}) (visit_steps cluster key steps p w)
  unfolding visit_steps
  visit_steps-Kept [] p w jobless = refl
  visit_steps-Kept ((n, step) ∷ steps) p w jobless =
      Runs-bind (λ q v. Kept p.workflow q.workflow) (λ q v. Kept p.workflow q.workflow) (λ v. Unit)
        (visit_step cluster key n step p) (visit_steps cluster key steps) w
        (visit_step-Kept n step p w
          (λ same. jobless step (inl (ap (λ (k : String). (k, step)) (sym same)))))
        (λ q v kept.
          Runs-map (λ r u. Kept q.workflow r.workflow) (λ r u. Kept p.workflow r.workflow)
            (λ v. Unit) (λ v. Unit) _
            (visit_steps-Kept steps q v (λ s there. jobless s (inr there)))
            (λ r u more. more ∙ kept) (λ u t. t))

  conclude-Kept :
      (wf : Workflow) (p : Progress) (w : World)
      → Kept wf p.workflow
      → Runs (λ r v. Kept wf r.0) (λ v. Unit {0}) (conclude cluster p w)
  unfolding conclude add_complete_condition
  conclude-Kept wf p w kept = elim (Bool-cases p.complete) [
    | inl set ↦ simp set kept
    | inr unset ↦ simp unset kept
  ]

  process_steps-Kept :
      (wf : Workflow) (w : World)
      → IsJobless name (entries wf.spec.steps)
      → Runs (λ r v. Kept wf r.0) (λ v. Unit {0}) (process_steps cluster key wf w)
  unfolding process_steps
  process_steps-Kept wf w jobless =
      let p : Progress = record { workflow = wf; needs_update = false; complete = true } in
      Runs-bind (λ q v. Kept wf q.workflow) (λ r v. Kept wf r.0) (λ v. Unit)
        (visit_steps cluster key (entries wf.spec.steps) p) (conclude cluster) w
        (visit_steps-Kept (entries wf.spec.steps) p w jobless)
        (λ q v kept. conclude-Kept wf q v kept)

  -- The workflow is not finished, and waits for the step.
  pub record Waits (wf : Workflow) : Type 0 where
    pub unfinished : is_finished wf ≡ false
    pub listed : In name (keys (entries wf.spec.steps))
    pub jobless : IsJobless name (entries wf.spec.steps)
    pub incomplete : step_complete wf.status.statuses name ≡ false

  Waits-round :
      (wf : Workflow) (w : World) (r : Workflow × Bool) (v : World)
      → Waits wf
      → Processed cluster wf w r v
      → Kept wf r.0
      → Waits r.0
  unfolding step_complete is_finished
  Waits-round wf w r v waits processed kept = record {
    unfinished = elim processed.ending [
      | inl (all, _, _, _) ↦
          absurd (not-all_complete wf.status.statuses name _ waits.listed waits.incomplete all)
      | inr (_, same) ↦ ap (λ c. any_finished c) same ∙ waits.unfinished
    ];
    listed =
        subst (λ (s : WorkflowSpec). In name (keys (entries s.steps))) (sym processed.same_spec)
          waits.listed;
    jobless =
        subst (λ (s : WorkflowSpec). IsJobless name (entries s.steps)) (sym processed.same_spec)
          waits.jobless;
    incomplete =
        ap (λ (o : Option WorkflowStepStatus). elim o [ none ↦ false | some st ↦ st.complete ]) kept
        ∙ waits.incomplete;
  }

  -- A workflow that is not finished, and has an incomplete step without a job template, such as one with
  -- an external reference, is not finished by any number of rounds of `processSteps`, whatever the world
  -- does.
  pub process_rounds-Waits :
      (rounds : ℕ) (wf : Workflow) (w : World)
      → Waits wf
      → Runs
          (λ wf' v. is_finished wf' ≡ false)
          (λ v. Unit {0})
          (process_rounds cluster rounds key wf w)
  unfolding process_rounds
  process_rounds-Waits zero wf w waits = waits.unfinished
  process_rounds-Waits (suc rounds) wf w waits = simp waits.unfinished (
      Runs-bind (λ r v. Waits r.0) (λ wf' v. is_finished wf' ≡ false) (λ v. Unit)
        (process_steps cluster key wf) (λ r. process_rounds cluster rounds key r.0) w
        (Runs-map (λ r v. Processed cluster wf w r v × Kept wf r.0) (λ r v. Waits r.0)
          (λ v. Stopped cluster wf w v × Unit {0}) (λ v. Unit) _
          (Runs-both (Processed cluster wf w) (λ r v. Kept wf r.0) (Stopped cluster wf w)
            (λ v. Unit) _ (process_steps-Processed cluster wf w key)
            (process_steps-Kept wf w waits.jobless))
          (λ r v (processed, kept). Waits-round wf w r v waits processed kept) (λ v u. tt))
        (λ r v later. process_rounds-Waits rounds r.0 v later))
