-- ===== src/Transitioner/Steps/Completion.antt =====
-- Round after round of `processSteps`, until the workflow is finished.
use kubernetes_workflow.Base.{
  ℕ, zero, suc, ◌+◌, ◌<◌, String, List, [], ◌∷◌, true, false, ◌==◌, some, if◌then◌else◌, ◌≡◌, refl,
  sym, ap, ◌∙◌, subst, arith, eq_iff, In, inl, inr, Bool-cases,
}
use kubernetes_workflow.GoMap.{GoMap, made, entries, keys, lookup}
use kubernetes_workflow.GoMap.Laws.{lookup_of_In}
use kubernetes_workflow.Api.Types.{Workflow, WorkflowSpec, WorkflowStep, WorkflowStepStatus}
use kubernetes_workflow.Api.Methods.{
  step_complete, all_complete, is_finished, add_complete_condition,
}
use kubernetes_workflow.Validation.Sort.Correct.{KeepsElements}
use kubernetes_workflow.Validation.Workflow.{validate_workflow}
use kubernetes_workflow.Validation.Workflow.Laws.{IsRunnable, validate_workflow-IsRunnable}
use kubernetes_workflow.World.{Cluster, World, Action, pure, ◌>>=◌}
use kubernetes_workflow.World.Runs.{Runs, Runs-bind, Runs-map, Runs-both}
use kubernetes_workflow.Transitioner.Steps.{Progress, visit_steps, conclude, process_steps}
use kubernetes_workflow.Transitioner.Steps.Loop.{Stopped}
use kubernetes_workflow.Transitioner.Steps.Outcome.{Processed, process_steps-Processed}
use kubernetes_workflow.Transitioner.Steps.Finishing.{
  HasFinishedJobs, Later, AdvancedAll, visit_steps-AdvancedAll,
}

-- Rounds that follow one another, until the workflow is finished.
unfoldable pub process_rounds : Cluster → ℕ → String → Workflow → Action Workflow
process_rounds cluster zero key wf = pure wf
process_rounds cluster (suc rounds) key wf =
    if is_finished wf
    then pure wf
    else process_steps cluster key wf >>= λ r. process_rounds cluster rounds key r.0

In-lookup :
    (k : String) (v : WorkflowStep) (m : List (String × WorkflowStep))
    → lookup k m ≡ some v
    → In (k, v) m
unfolding lookup
In-lookup k v [] found = cc
In-lookup k v ((j, x) ∷ m) found = elim (Bool-cases (j == k)) [
  | inl here ↦
      let same_key = (eq_iff j k).0 here in
      let same : x ≡ v = ground (arith, found, here) in
      inl
        (ap (λ (n : String). (n, v)) (sym same_key) ∙ ap (λ (s : WorkflowStep). (j, s)) (sym same))
  | inr other ↦ inr (In-lookup k v m (ground (arith, found, other)))
]

pub all_complete_of :
    (statuses : GoMap WorkflowStepStatus) (names : List String)
    → ((d : String) → In d names → step_complete statuses d ≡ true)
    → all_complete statuses names ≡ true
unfolding all_complete
all_complete_of statuses [] h = refl
all_complete_of statuses (d ∷ names) h =
    ground (arith, h d (inl refl), all_complete_of statuses names (λ n there. h n (inr there)))

-- A rank of the names of a list has a bound.
pub bound_of :
    (rank : String → ℕ) (names : List String)
    → (bound : ℕ) × ((n : String) → In n names → rank n < bound)
bound_of rank [] = (0, λ n none_in. absurd none_in)
bound_of rank (x ∷ names) =
    let (bound, below) = bound_of rank names in
    (
      bound + suc (rank x),
      λ n there. elim there [
        | inl same ↦ subst (λ (y : String). rank y < bound + suc (rank x)) (sym same) (omega arith)
        | inr later ↦ omega (arith, below n later)
      ],
    )

module _ (cluster : Cluster) (key : String) (base : Workflow)
    (env : HasFinishedJobs cluster base) where
  conclude-AdvancedAll :
      (wf : Workflow) (steps : List (String × WorkflowStep)) (p : Progress) (w : World)
      → AdvancedAll cluster key base env wf steps p.workflow
      → Runs (λ r w'. AdvancedAll cluster key base env wf steps r.0) (λ v. ⊥) (conclude cluster p w)
  unfolding conclude add_complete_condition
  conclude-AdvancedAll wf steps p w h = elim (Bool-cases p.complete) [
    | inl set ↦ simp set h
    | inr unset ↦ simp unset h
  ]

  pub process_steps-AdvancedAll :
      (wf : Workflow) (w : World)
      → Later cluster key base env wf
      → Runs
          (λ r w'. AdvancedAll cluster key base env wf (entries wf.spec.steps) r.0)
          (λ v. ⊥)
          (process_steps cluster key wf w)
  unfolding process_steps
  process_steps-AdvancedAll wf w later =
      let p : Progress = record { workflow = wf; needs_update = false; complete = true } in
      Runs-bind (λ q w'. AdvancedAll cluster key base env wf (entries wf.spec.steps) q.workflow)
        (λ r w'. AdvancedAll cluster key base env wf (entries wf.spec.steps) r.0) (λ v. ⊥)
        (visit_steps cluster key (entries wf.spec.steps) p) (conclude cluster) w
        (visit_steps-AdvancedAll cluster key base env (entries wf.spec.steps) p w later
          (λ e there. subst (λ (s : WorkflowSpec). In e (entries s.steps)) later.1 there))
        (λ q w' all. conclude-AdvancedAll wf (entries wf.spec.steps) q w' all)

  module _ (runnable : IsRunnable (entries base.spec.steps)) where
    -- The steps of a rank below the level are complete.
    abbrev pub BelowComplete : ℕ → Workflow → Type 0
    BelowComplete level wf =
        (name : String) (step : WorkflowStep)
        → lookup name (entries base.spec.steps) ≡ some step
        → runnable.rank name < level
        → step_complete wf.status.statuses name ≡ true

    pub BelowComplete-suc :
        (level : ℕ) (wf wf' : Workflow)
        → BelowComplete level wf
        → AdvancedAll cluster key base env wf (entries base.spec.steps) wf'
        → BelowComplete (suc level) wf'
    BelowComplete-suc level wf wf' below (later, kept, done) name step found low =
        done name step (In-lookup name step (entries base.spec.steps) found) (
          all_complete_of wf.status.statuses step.dependencies (λ d there.
            let (step', found') =
              lookup_of_In d (entries base.spec.steps) (runnable.closed name step found d there) in
            below d step' found' (omega (arith, low, runnable.ranks name step found d there))))

    pub process_steps-finishes :
        (wf : Workflow) (w : World)
        → Later cluster key base env wf
        → all_complete wf.status.statuses (keys (entries wf.spec.steps)) ≡ true
        → Runs (λ r w'. is_finished r.0 ≡ true) (λ v. ⊥) (process_steps cluster key wf w)
    process_steps-finishes wf w later all =
        Runs-map
          (λ r w'.
            Processed cluster wf w r w'
            × AdvancedAll cluster key base env wf (entries wf.spec.steps) r.0)
          (λ r w'. is_finished r.0 ≡ true) (λ v. Stopped cluster wf w v × ⊥) (λ v. ⊥) _
          (Runs-both (Processed cluster wf w)
            (λ r w'. AdvancedAll cluster key base env wf (entries wf.spec.steps) r.0)
            (Stopped cluster wf w) (λ v. ⊥) _ (process_steps-Processed cluster wf w key)
            (process_steps-AdvancedAll wf w later))
          (λ r w' (processed, all_advanced). elim processed.ending [
            | inl (_, finished, _, _) ↦ finished
            | inr (unfinished, _) ↦ cc (all, unfinished)
          ])
          (λ v none_panics. none_panics.1)

    -- Where all of the steps are complete, the next round finishes the workflow.
    finishes :
        (wf : Workflow) (w : World)
        → Later cluster key base env wf
        → all_complete wf.status.statuses (keys (entries wf.spec.steps)) ≡ true
        → Runs (λ wf' w'. is_finished wf' ≡ true) (λ v. ⊥) (process_rounds cluster 1 key wf w)
    unfolding process_rounds
    finishes wf w later all = elim (Bool-cases (is_finished wf)) [
      | inl finished ↦ simp finished refl
      | inr open_one ↦ simp open_one (
          Runs-bind (λ r w'. is_finished r.0 ≡ true) (λ wf' w'. is_finished wf' ≡ true) (λ v. ⊥)
            (process_steps cluster key wf) (λ r. pure r.0) w (process_steps-finishes wf w later all)
            (λ r w' finished. finished))
    ]

    rounds-finish :
        (rounds level : ℕ) (wf : Workflow) (w : World)
        → Later cluster key base env wf
        → BelowComplete level wf
        → ((n : String) → In n (keys (entries base.spec.steps)) → runnable.rank n < level + rounds)
        → Runs
            (λ wf' w'. is_finished wf' ≡ true)
            (λ v. ⊥)
            (process_rounds cluster (suc rounds) key wf w)
    unfolding process_rounds
    rounds-finish zero level wf w later below bounded = finishes wf w later (
        subst
          (λ (x : WorkflowSpec). all_complete wf.status.statuses (keys (entries x.steps)) ≡ true)
          (sym later.1)
          (all_complete_of wf.status.statuses (keys (entries base.spec.steps)) (λ d there.
            let (step, found) = lookup_of_In d (entries base.spec.steps) there in
            below d step found (omega (arith, bounded d there)))))
    rounds-finish (suc rounds) level wf w later below bounded = elim (Bool-cases (is_finished wf)) [
      | inl finished ↦ simp finished refl
      | inr open_one ↦ simp open_one (
          Runs-bind (λ r w'. AdvancedAll cluster key base env wf (entries wf.spec.steps) r.0)
            (λ wf' w'. is_finished wf' ≡ true) (λ v. ⊥) (process_steps cluster key wf)
            (λ r. process_rounds cluster (suc rounds) key r.0) w
            (process_steps-AdvancedAll wf w later)
            (λ r w' advanced.
              rounds-finish rounds (suc level) r.0 w' advanced.0
                (BelowComplete-suc level wf r.0 below (
                  subst
                    (λ (x : WorkflowSpec).
                      AdvancedAll cluster key base env wf (entries x.steps) r.0)
                    later.1 advanced))
                (λ n there. omega (arith, bounded n there))))
    ]

-- A workflow without errors is finished after a number of rounds, whatever else the world does, and no
-- round panics: where its map of statuses is made, and the job store has one job of each step, which is
-- finished and to which a reference can be made. The sort of texts keeps the elements of a list.
pub process_rounds_finish :
    (cluster : Cluster) (key : String) (wf : Workflow)
    (statuses : List (String × WorkflowStepStatus))
    → KeepsElements cluster.rules.sort_strings
    → validate_workflow cluster.rules wf ≡ []
    → wf.status.statuses ≡ made statuses
    → HasFinishedJobs cluster wf
    → (rounds : ℕ) × ((w : World)
        → Runs (λ wf' w'. is_finished wf' ≡ true) (λ v. ⊥) (process_rounds cluster rounds key wf w))
process_rounds_finish cluster key wf statuses keeps valid was env =
    let runnable = (validate_workflow-IsRunnable cluster.rules keeps wf valid).0 in
    let (bound, below) = bound_of runnable.rank (keys (entries wf.spec.steps)) in
    (
      suc bound,
      λ w.
          rounds-finish cluster key wf env runnable bound 0 wf w (refl, refl, (statuses, was))
            (λ name step found low. absurd (omega (arith, low)))
            (λ n there. omega (arith, below n there)),
    )
