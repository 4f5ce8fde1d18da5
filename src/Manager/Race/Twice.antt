-- ===== src/Manager/Race/Twice.antt =====
-- Two orders of the moves in which the code does not do what it means to.
use kubernetes_workflow.Base.{
  ℕ, suc, ◌-◌, ◌≤◌, String, true, false, some, ◌≡◌, refl, ap, ◌∙◌, arith, ltb, eq_refl,
}
use kubernetes_workflow.Api.Meta.{JobTemplateSpec, Job}
use kubernetes_workflow.Api.Types.{Workflow}
use kubernetes_workflow.Expectations.{
  Expectations, expectations_timeout, expectations_satisfied, expect_creation,
}
use kubernetes_workflow.Expectations.Laws.{satisfied-expect_creation, satisfied-creation_observed}
use kubernetes_workflow.Job.Labels.{step_of_labels}
use kubernetes_workflow.World.{Cluster}
use kubernetes_workflow.Transitioner.Steps.{key_of}
use kubernetes_workflow.Manager.{observe}
use kubernetes_workflow.Manager.Race.{
  accepted, listed, Race, InWindow, IsStepJob, lists, clears, creates, expects, reports, handles,
  Reach, here, next, IsStart,
}

not-expired : (gap : ℕ) → gap ≤ expectations_timeout → ltb expectations_timeout gap ≡ false
not-expired gap h = ground arith

-- A creation that was expected is not settled within the timeout.
unsettled_within :
    (now later : ℕ) (key step : String) (store : Expectations)
    → later - now ≤ expectations_timeout
    → expectations_satisfied later key step (expect_creation now key step store) ≡ false
unsettled_within now later key step store soon =
    satisfied-expect_creation later now key step key step store
    ∙ simp eq_refl (not-expired (later - now) soon)

module _ (cluster : Cluster) (start now : ℕ) (wf : Workflow) (template : JobTemplateSpec)
    (name key : String) (job : Job) (keyed : cluster.key_func wf.meta ≡ some key)
    (own : IsStepJob wf template name job) (window : InWindow start now) where
  -- Once `addJob` has seen the job, the expectations are settled.
  satisfied-observe :
      (later : ℕ) (store : Expectations)
      → expectations_satisfied later
          (key_of cluster wf)
          name
          (observe cluster job wf store).expectations
        ≡ true
  unfolding observe
  satisfied-observe later store =
      let labelled = step_of_labels job.meta.labels wf template name own.0 in
      let seen = satisfied-creation_observed later key name key name store in
      rw (keyed, observe, key_of, labelled) (seen ∙ simp eq_refl)

  -- The step has no job, and its expectations are settled.
  abbrev IsReadyRace : Race → Type 0
  IsReadyRace s =
      IsStart cluster wf template name s
      × (expectations_satisfied now (key_of cluster wf) name s.expectations ≡ true)

  abbrev Reaches : Race → Race → Type 0
  Reaches s u = Reach cluster start wf template name s u

  -- The worker lists no job, and the server accepts one.
  first_created :
      (s : Race)
      → IsReadyRace s
      → Reaches s
          (record s { phase = accepted; unreported = suc s.unreported; created = suc s.created })
  first_created s (b, clear) =
      let none_listed = ap listed b.none_stored in
      next (next (next here (lists s b.at_rest)) (clears _ now none_listed window clear))
        (creates _ refl)

  -- Where the step has no job and its expectations are settled, two jobs can be created for it: the
  -- informer stores the first one, and calls `addJob`, after the worker has listed none, and before it
  -- looks at the expectations.
  pub created_twice : (s : Race) → IsReadyRace s → (u : Race) × Reaches s u × (u.created ≡ 2)
  created_twice s r =
      let expected = next (first_created s r) (expects _ now refl window) in
      let relisted = next expected (lists _ refl) in
      let reported = next relisted (reports _ job s.unreported own refl) in
      let handled = next reported (handles _ job s.unhandled own refl) in
      let cleared_again =
        next handled (clears _ now (ap listed r.0.none_stored) window (satisfied-observe now _)) in
      (_, next cleared_again (creates _ refl), ap (λ n. suc (suc n)) r.0.none_created)

  -- Where `addJob` is called for the job before its creation is expected, the expectation stays: the
  -- step is not settled within the timeout, though no job is to be reported any more.
  pub observed_early :
      (s : Race)
      → IsReadyRace s
      → (u : Race) × Reaches s u
        × (u.unreported ≡ 0)
        × (u.unhandled ≡ 0)
        × ((later : ℕ)
            → later - now ≤ expectations_timeout
            → expectations_satisfied later (key_of cluster wf) name u.expectations ≡ false)
  observed_early s r =
      let reported = next (first_created s r) (reports _ job s.unreported own refl) in
      let handled = next reported (handles _ job s.unhandled own refl) in
      (
        _,
        next handled (expects _ now refl window),
        r.0.none_unreported,
        r.0.none_unhandled,
        λ later soon. unsettled_within now later (key_of cluster wf) name _ soon,
      )
