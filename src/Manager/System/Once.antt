-- ===== src/Manager/System/Once.antt =====
-- How many jobs the manager creates for a step of a workflow while no event settles its expectation.
use kubernetes_workflow.Base.{
  ℕ, ◌+◌, ◌-◌, ◌≤◌, String, List, [], ◌∷◌, Bool, true, false, Option, some, none, ◌==◌, ◌≡◌, ◌⊎◌,
  ◌&&◌, refl, sym, ◌∙◌, ap, subst, arith, eq_iff, inl, inr, Option-cases, Bool-cases,
}
use kubernetes_workflow.GoMap.{lookup}
use kubernetes_workflow.Api.Meta.{Job}
use kubernetes_workflow.Api.Types.{Workflow}
use kubernetes_workflow.Expectations.{Expectations}
use kubernetes_workflow.Expectations.Laws.{pending, pending-creation_observed}
use kubernetes_workflow.Job.{workflow_step_label_key}
use kubernetes_workflow.Job.Labels.{label_or_empty}
use kubernetes_workflow.World.{Cluster, World, Result, ok, panicked}
use kubernetes_workflow.Transitioner.Steps.Rule.{At}
use kubernetes_workflow.Transitioner.Process.{is_missing}
use kubernetes_workflow.Transitioner.Process.Rule.{KeysByName}
use kubernetes_workflow.Manager.{Handled, job_workflow, observe, add_job, work}
use kubernetes_workflow.Manager.System.{
  new_manager, Event, worked, job_added, job_updated, job_deleted, workflow_added, workflow_updated,
  workflow_deleted, System, stored, advance, run,
}
use kubernetes_workflow.Manager.System.Rule.{work-Keeps, restore_ind, after_add_job_ind}
use kubernetes_workflow.Manager.System.Keyed.{manager-KeyedStore, KeyedStore, advance-KeyedStore}
use kubernetes_workflow.Manager.System.Fence.{count_named, TimeoutPassed, Fenced, Fenced-kept}
use kubernetes_workflow.Manager.System.Round.{Present, Own, Other, FencedAt, own-Parts, other-Parts}
use kubernetes_workflow.Manager.System.Count.{made_in_round, observes, settles, unsettled, made_for}

module _ (cluster : Cluster) (key step : String) where
  observe-pending :
      (job : Job) (wf : Workflow) (e : Expectations)
      → observes cluster key step job (ok (some wf)) ≡ false
      → pending (observe cluster job wf e).expectations key step ≡ pending e key step
  unfolding observe
  observe-pending job wf e unseen = elim (Option-cases (cluster.key_func wf.meta)) [
    | inl no_key ↦ rw (no_key, observe) refl
    | inr (k, keyed) ↦
        let other : k == key && label_or_empty workflow_step_label_key job.meta.labels == step
            ≡ false =
          rw (keyed, observes) at unseen in
        rw (keyed, observe)
          (pending-creation_observed k (label_or_empty workflow_step_label_key job.meta.labels) key
              step e
            ∙ simp other)
  ]

  add_job-pending :
      (job : Job) (store : List Workflow) (e : Expectations) (h : Handled)
      (r : Result (Option Workflow))
      → job_workflow cluster job store ≡ r
      → observes cluster key step job r ≡ false
      → add_job cluster job store e ≡ ok h
      → pending h.expectations key step ≡ pending e key step
  unfolding add_job
  add_job-pending job store e h panicked r unseen added = cc (rw (r, add_job) at added)
  add_job-pending job store e h (ok none) r unseen added =
      let same : record { expectations = e; added = [] } ≡ h = cc (rw (r, add_job) at added) in
      ap (λ (x : Handled). pending x.expectations key step) (sym same)
  add_job-pending job store e h (ok (some wf)) r unseen added =
      let same : observe cluster job wf e ≡ h = cc (rw (r, add_job) at added) in
      ap (λ (x : Handled). pending x.expectations key step) (sym same)
      ∙ observe-pending job wf e unseen

  module _ (start : ℕ) where
    abbrev FencedWorld : ℕ → World → Type 0
    FencedWorld total w = (start ≤ w.asked) × FencedAt cluster key step start total w

    nothing_made : (total : ℕ) (w : World) → FencedWorld total w → FencedWorld (total + 0) w
    nothing_made total w h = subst (λ (n : ℕ). FencedWorld n w) (omega arith) h

    own_round :
        (by_name : KeysByName cluster) (total : ℕ) (w : World)
        → Present key w.store
        → KeyedStore cluster w.store
        → start ≤ w.asked
        → FencedAt cluster key step start total w
        → At (Own cluster key step start total (count_named step w.created)) (work cluster key w).1
    own_round by_name total w there keyed from_start fenced =
        work-Keeps cluster by_name key _
          (own-Parts cluster key step start total (count_named step w.created)) w (keyed key)
          (
            0,
            from_start,
            there,
            omega arith,
            subst (λ (n : ℕ). FencedAt cluster key step start n w) (omega arith) fenced,
          )

    -- What a round for the key makes is what the created jobs of the step grow by.
    own_result :
        (total : ℕ) (w w' : World)
        → At (Own cluster key step start total (count_named step w.created)) w'
        → (start ≤ w'.asked)
          × FencedAt cluster key step start
              (total + (count_named step w'.created - count_named step w.created))
              w'
    own_result total w w' (more, a, there, count, fenced) =
        (a, subst (λ (n : ℕ). FencedAt cluster key step start n w') (omega (arith, count)) fenced)

    worked-Fenced :
        (by_name : KeysByName cluster) (k : String) (total : ℕ) (s s' : System)
        → s'.world ≡ (work cluster k s.world).1
        → (k == key && is_missing (lookup k s.world.store)) ≡ false
        → KeyedStore cluster s.world.store
        → FencedWorld total s.world
        → FencedWorld (total + made_in_round key step (worked k) s s') s'.world
    unfolding made_in_round
    worked-Fenced by_name k total s s' after there keyed (from_start, fenced) =
        elim (Bool-cases (k == key)) [
          | inl this ↦
              let same = (eq_iff k key).0 this in
              let present : Present key s.world.store =
                λ absent. cc (this, rw (same, absent) at there) in
              simp this (
                own_result total s.world s'.world (
                  subst (At (Own cluster key step start total (count_named step s.world.created)))
                    (sym (after ∙ ap (λ (x : String). (work cluster x s.world).1) same))
                    (own_round by_name total s.world present keyed from_start fenced)))
          | inr other ↦ simp other (
              nothing_made total s'.world (
                subst (At (Other cluster key step start total)) (sym after) (
                  work-Keeps cluster by_name k _ (other-Parts cluster key step start k total other)
                    s.world (keyed k) (from_start, fenced))))
        ]

    advance-Fenced :
        (deep_equal : Job → Job → Bool) (by_name : KeysByName cluster) (e : Event) (total : ℕ)
        (s : System)
        → settles cluster key step e s ≡ false
        → KeyedStore cluster s.world.store
        → FencedWorld total s.world
        → FencedWorld
            (total + made_in_round key step e s (advance cluster deep_equal e s))
            (advance cluster deep_equal e s).world
    unfolding advance settles made_in_round
    advance-Fenced deep_equal by_name (worked k) total s unsettled_one keyed h =
        worked-Fenced by_name k total s (advance cluster deep_equal (worked k) s) refl unsettled_one
          keyed h
    advance-Fenced deep_equal by_name (job_added job) total s unsettled_one keyed h =
        after_add_job_ind (FencedWorld (total + 0))
          (add_job cluster job (stored s.world.store) s.world.expectations) s
          (nothing_made total s.world h)
          (λ handled added.
            nothing_made total (record (s.world) { expectations = handled.expectations })
              (
                h.0,
                Fenced-kept cluster key step start s.world.expectations handled.expectations total
                    (omega arith)
                    (add_job-pending job (stored s.world.store) s.world.expectations handled _ refl
                      unsettled_one added)
                    h.1,
              ))
    advance-Fenced deep_equal by_name (job_updated old cur) total s unsettled_one keyed h =
        nothing_made total s.world h
    advance-Fenced deep_equal by_name (job_deleted deleted) total s unsettled_one keyed h =
        nothing_made total s.world h
    advance-Fenced deep_equal by_name (workflow_added wf) total s unsettled_one keyed h =
        restore_ind (FencedWorld (total + 0)) _ (cluster.key_func wf.meta) s.world
          (nothing_made total s.world h) (λ k of_wf. nothing_made total s.world h)
    advance-Fenced deep_equal by_name (workflow_updated wf) total s unsettled_one keyed h =
        restore_ind (FencedWorld (total + 0)) _ (cluster.key_func wf.meta) s.world
          (nothing_made total s.world h) (λ k of_wf. nothing_made total s.world h)
    advance-Fenced deep_equal by_name (workflow_deleted wf) total s unsettled_one keyed h =
        restore_ind (FencedWorld (total + 0)) _ (cluster.key_func wf.meta) s.world
          (nothing_made total s.world h) (λ k of_wf. nothing_made total s.world h)

    run-Fenced :
        (deep_equal : Job → Job → Bool) (by_name : KeysByName cluster) (events : List Event)
        (total : ℕ) (s : System)
        → unsettled cluster deep_equal key step events s ≡ true
        → KeyedStore cluster s.world.store
        → FencedWorld total s.world
        → FencedWorld
            (total + made_for cluster deep_equal key step events s)
            (run cluster deep_equal events s).world
    unfolding run made_for unsettled
    run-Fenced deep_equal by_name [] total s quiet keyed h = nothing_made total s.world h
    run-Fenced deep_equal by_name (e ∷ events) total s quiet keyed h =
        let s' = advance cluster deep_equal e s in
        subst (λ (n : ℕ). FencedWorld n (run cluster deep_equal events s').world) (omega arith)
          (run-Fenced deep_equal by_name events (total + made_in_round key step e s s') s'
            (ground (arith, quiet)) (advance-KeyedStore cluster by_name deep_equal e s keyed)
            (advance-Fenced deep_equal by_name e total s (ground (arith, quiet)) keyed h))

at_most_one :
    (total asked : ℕ) (e : Expectations) (cluster : Cluster) (key step : String) (start : ℕ)
    → Fenced cluster key step start total asked e
    → TimeoutPassed cluster start asked ⊎ (total ≤ 1)
at_most_one total asked e cluster key step start (inl late) = inl late
at_most_one total asked e cluster key step start (inr (inl none_made)) =
    inr (omega (arith, none_made))
at_most_one total asked e cluster key step start (inr (inr (q, one, from, before, expected))) =
    inr (omega (arith, one))

-- Whatever happens to the manager, and in whatever order: as long as no event settles the expectation
-- of a step, the rounds of its workflow create at most one job for the step, unless more than the
-- timeout passes between two of the answers of the clock. Keys are made of names and namespaces, and the
-- store has every workflow under its own key.
pub made_for_once :
    (cluster : Cluster) (deep_equal : Job → Job → Bool) (key step : String) (events : List Event)
    (s : System)
    → KeysByName cluster
    → KeyedStore cluster s.world.store
    → unsettled cluster deep_equal key step events s ≡ true
    → TimeoutPassed cluster s.world.asked (run cluster deep_equal events s).world.asked
      ⊎ (made_for cluster deep_equal key step events s ≤ 1)
made_for_once cluster deep_equal key step events s by_name keyed quiet =
    let w' = (run cluster deep_equal events s).world in
    let (from_start, fenced) =
      run-Fenced cluster key step s.world.asked deep_equal by_name events 0 s quiet keyed
        (omega arith, inr (inl refl)) in
    elim (at_most_one (0 + made_for cluster deep_equal key step events s) w'.asked w'.expectations
      cluster key step s.world.asked fenced) [
        | inl late ↦ inl late
        | inr few ↦ inr (omega (arith, few))
      ]

-- The same for a manager that was started by `NewManager`, after any events.
pub manager_made_once :
    (cluster : Cluster) (deep_equal : Job → Job → Bool) (key step : String)
    (before events : List Event)
    → KeysByName cluster
    → unsettled cluster deep_equal key step events (run cluster deep_equal before new_manager)
      ≡ true
    → (let s = run cluster deep_equal before new_manager in
        TimeoutPassed cluster s.world.asked (run cluster deep_equal events s).world.asked
        ⊎ (made_for cluster deep_equal key step events s ≤ 1))
manager_made_once cluster deep_equal key step before events by_name quiet =
    made_for_once cluster deep_equal key step events (run cluster deep_equal before new_manager)
      by_name (manager-KeyedStore cluster by_name deep_equal before) quiet
