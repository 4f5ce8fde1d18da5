-- ===== src/Manager/Race/Runs.antt =====
-- What the code does in one go is a sequence of the worker's moves.
use kubernetes_workflow.Base.{
  ℕ, suc, ◌+◌, String, List, [], ◌∷◌, Bool, true, false, some, ◌≡◌, inl, inr, refl, sym, ap, ◌∙◌,
  subst, arith, length, Bool-cases,
}
use kubernetes_workflow.Api.Meta.{JobTemplateSpec, Job}
use kubernetes_workflow.Api.Types.{Workflow, WorkflowStep}
use kubernetes_workflow.Api.Methods.{dependencies_resolved}
use kubernetes_workflow.Expectations.{expectations_satisfied, expect_creation}
use kubernetes_workflow.World.{Cluster, World, pure}
use kubernetes_workflow.World.Runs.{Runs, Runs-bind, Runs-map}
use kubernetes_workflow.Transitioner.State.{share_statuses}
use kubernetes_workflow.Transitioner.Steps.{
  key_of, create_job_for_step, reconcile, process_job_step, template_of,
}
use kubernetes_workflow.Transitioner.Steps.Contract.{
  Attempt, create_job_for_step-Attempt, update_step_status_ind,
}
use kubernetes_workflow.Manager.Race.{
  idle, listed, Race, InWindow, jobs_of, lists, leaves, waits, clears, fails, creates, expects,
  Reach, here, next,
}

-- A panic comes before any job, and leaves the expectations as they are.
abbrev pub Unplayed : World → World → Type 0
Unplayed w w' = (w'.created ≡ w.created) × (w'.expectations ≡ w.expectations)

module _ (cluster : Cluster) (start : ℕ) (wf : Workflow) (template : JobTemplateSpec)
    (name : String) (clock : (i : ℕ) → InWindow start (cluster.now i)) where
  -- The worker's moves lead from the race `s` to one in which it is at rest, with the expectations of
  -- the world `w'`, where as many jobs were created as there are more than `before`.
  pub record Played (s : Race) (before : List (String × Job)) (w' : World) : Type 0 where
    pub final : Race
    pub path : Reach cluster start wf template name s final
    pub at_rest : final.phase ≡ idle
    pub same_expectations : final.expectations ≡ w'.expectations
    pub same_stored : final.stored ≡ s.stored
    pub as_many : final.created + length before ≡ s.created + length w'.created

  -- The worker comes to rest without a job.
  Played-rest :
      (s t : Race) (w w' : World)
      → Reach cluster start wf template name s t
      → t.phase ≡ idle
      → t.expectations ≡ w'.expectations
      → t.stored ≡ s.stored
      → t.created ≡ s.created
      → w'.created ≡ w.created
      → Played s w.created w'
  Played-rest s t w w' path rest e st c same = record {
    final = t;
    path = path;
    at_rest = rest;
    same_expectations = e;
    same_stored = st;
    as_many = rw (c, same) refl;
  }

  -- The worker has listed no job.
  abbrev found_none : Race → Race
  found_none s = record s { phase = listed [] }

  module _ (s : Race) (path : Reach cluster start wf template name s (found_none s)) (w : World)
      (same : s.expectations ≡ w.expectations) where
    -- What the worker finds when it looks at the expectations.
    looks :
        (b : Bool)
        → expectations_satisfied (cluster.now w.asked) (key_of cluster wf) name w.expectations ≡ b
        → expectations_satisfied (cluster.now w.asked) (key_of cluster wf) name s.expectations ≡ b
    looks b e = rw same e

    Played-unmade :
        (w' : World)
        → w'.created ≡ w.created
        → w'.expectations ≡ w.expectations
        → Played s w.created w'
    Played-unmade w' c e =
        elim (Bool-cases
          (expectations_satisfied (cluster.now w.asked) (key_of cluster wf) name w.expectations)) [
            | inl clear ↦
                Played-rest s _ w w'
                  (next (next path (clears _ _ refl (clock w.asked) (looks true clear)))
                    (fails _ refl))
                  refl (same ∙ sym e) refl refl c
            | inr unsettled ↦
                Played-rest s _ w w'
                  (next path (waits _ _ refl (clock w.asked) (looks false unsettled))) refl
                  (same ∙ sym e) refl refl c
          ]

    Attempt-Played : (w' : World) → Attempt cluster wf name template w w' → Played s w.created w'
    Attempt-Played w' a = elim a.either [
      | inl (unmade, e) ↦ Played-unmade w' unmade e
      | inr (m, sat, (question, after, before, e)) ↦ record {
        final = _;
        path =
            next
              (next (next path (clears _ _ refl (clock w.asked) (looks true sat))) (creates _ refl))
              (expects _ (cluster.now question) refl (clock question));
        at_rest = refl;
        same_expectations =
            ap (expect_creation (cluster.now question) (key_of cluster wf) name) same ∙ sym e;
        same_stored = refl;
        as_many = omega (arith, ap length m.added);
      }
    ]

  -- The world after the question for the stored jobs.
  abbrev after_list : World → World
  after_list w = record w { asked = suc w.asked }

  reconcile-Played :
      (s : Race) (key : String) (jobs : List Job) (w : World)
      → s.expectations ≡ w.expectations
      → Reach cluster start wf template name s (record s { phase = listed jobs })
      → Runs
          (λ r w'. Played s w.created w')
          (λ w'. Unplayed w w')
          (reconcile cluster key wf name template jobs w)
  unfolding reconcile share_statuses
  reconcile-Played s key [] w same path =
      Runs-bind (λ u w'. Played s w.created w') (λ r w'. Played s w.created w')
        (λ w'. Unplayed w w') (create_job_for_step cluster wf name template) (λ u. pure (wf, false))
        w
        (Runs-map (λ u w'. Attempt cluster wf name template w w') (λ u w'. Played s w.created w')
          (λ v. ⊥) (λ w'. Unplayed w w') _ (create_job_for_step-Attempt cluster wf name template w)
          (λ u w' a. Attempt-Played s path w same w' a) (λ w' no. absurd no))
        (λ u w' played. played)
  reconcile-Played s key (job ∷ []) w same path =
      let rest : (w' : World)
          → w'.created ≡ w.created
          → w'.expectations ≡ w.expectations
          → Played s w.created w' =
        λ w' c e.
          Played-rest s _ w w' (next path (leaves _ job [] refl)) refl (same ∙ sym e) refl refl c in
      update_step_status_ind cluster (λ r w'. Played s w.created w') (λ w'. Unplayed w w') key wf
        name job w (rest w refl refl) (refl, refl) (λ ref statuses written. rest _ refl refl)
  reconcile-Played s key (job ∷ other ∷ jobs) w same path =
      Played-rest s _ w w (next path (leaves _ job (other ∷ jobs) refl)) refl same refl refl refl

  -- While the clock stays within the timeout, the processing of a step does to its expectations and to
  -- the jobs that are created what a sequence of the worker's moves does that begins and ends at rest;
  -- where it panics it does neither.
  pub process_job_step-Played :
      (s : Race) (key : String) (step : WorkflowStep) (w : World)
      → template_of wf name ≡ some template
      → s.phase ≡ idle
      → s.expectations ≡ w.expectations
      → s.stored ≡ cluster.jobs w.asked
      → Runs
          (λ r w'. Played s w.created w')
          (λ w'. Unplayed w w')
          (process_job_step cluster key wf name step template w)
  unfolding process_job_step
  process_job_step-Played s key step w own rest same stored =
      elim (Bool-cases (dependencies_resolved step wf)) [
        | inr waiting ↦ simp waiting (Played-rest s s w w here rest same refl refl refl)
        | inl resolved ↦
            simp (resolved, own)
              (reconcile-Played s key _ (after_list w) same (
                subst
                  (λ st.
                    Reach cluster start wf template name s
                      (record s { phase = listed (jobs_of cluster wf template name st) }))
                  stored (next here (lists s rest))))
      ]
