-- ===== src/Transitioner/Steps/Outcome.antt =====
-- What `processSteps` leaves behind, and when it completes the workflow.
use kubernetes_workflow.Base.{
  suc, arith, ◌⊎◌, sym, ◌∙◌, String, Bool, true, false, ◌≡◌, inl, inr, refl, ap, Bool-cases,
}
use kubernetes_workflow.GoMap.{entries, keys}
use kubernetes_workflow.Api.Types.{Workflow}
use kubernetes_workflow.Api.Methods.{all_complete, is_finished, add_complete_condition}
use kubernetes_workflow.Api.Laws.{Completed, is_finished-add_complete_condition}
use kubernetes_workflow.World.{Cluster, World}
use kubernetes_workflow.World.Runs.{Runs, Runs-bind}
use kubernetes_workflow.Transitioner.Steps.{Progress, visit_steps, conclude, process_steps}
use kubernetes_workflow.Transitioner.Steps.Grounds.{JobsSince-refl}
use kubernetes_workflow.Transitioner.Steps.Jobs.{KeepsComplete, Justified-within, JobsSince}
use kubernetes_workflow.Transitioner.Steps.Found.{Done, Done-within}
use kubernetes_workflow.Transitioner.Steps.Loop.{Sound, Stopped, Looped, visit_steps-Looped}

module _ (cluster : Cluster) (wf : Workflow) (w : World) where
  abbrev Stopped' : World → Type 0
  Stopped' = Stopped cluster wf w

  -- What `processSteps` leaves behind. The metadata and the specification are as they were; complete
  -- steps stay complete; a step is complete only where it was, or where the store listed one job for it,
  -- a finished one; every job created is justified. Where all of the steps were complete, the
  -- workflow is finished, its statuses are as they were and an update is wanted; where not, its
  -- conditions are as they were.
  pub record Processed (r : Workflow × Bool) (w' : World) : Type 0 where
    pub kept : KeepsComplete wf.status.statuses r.0.status.statuses
    pub grounded :
        (n : String) → Completed r.0.status.statuses n → Done cluster wf w.asked w'.asked n
    pub since : JobsSince cluster wf w w'
    pub same_meta : r.0.meta ≡ wf.meta
    pub same_spec : r.0.spec ≡ wf.spec
    pub ending :
        (all_complete wf.status.statuses (keys (entries wf.spec.steps)) ≡ true)
          × (is_finished r.0 ≡ true)
          × (r.1 ≡ true)
          × (r.0.status.statuses ≡ wf.status.statuses)
        ⊎ (all_complete wf.status.statuses (keys (entries wf.spec.steps)) ≡ false)
          × (r.0.status.conditions ≡ wf.status.conditions)

  conclude-Processed :
      (p : Progress) (v : World)
      → Sound cluster wf w p v
      → p.complete ≡ all_complete wf.status.statuses (keys (entries wf.spec.steps))
      → Runs Processed Stopped' (conclude cluster p v)
  unfolding conclude add_complete_condition
  conclude-Processed p v h flag = elim (Bool-cases p.complete) [
    | inl set ↦
        let unchanged = h.unchanged set in
        simp set (record {
          kept = λ n c. h.kept n c;
          grounded = λ n complete.
              Done-within cluster wf w.asked v.asked w.asked (suc v.asked) (omega arith)
                (omega arith) n (h.grounded n complete);
          since = record {
            jobs = h.since.jobs;
            added = h.since.added;
            justified =
                Justified-within cluster wf w.asked v.asked w.asked (suc v.asked) (omega arith)
                  (omega arith) h.since.jobs h.since.justified;
            quiet = h.since.quiet;
            later = omega (arith, h.since.later);
          };
          same_meta = ap (λ (x : Workflow). x.meta) unchanged;
          same_spec = ap (λ (x : Workflow). x.spec) unchanged;
          ending = inl (
            sym flag ∙ set,
            is_finished-add_complete_condition (cluster.now v.asked) p.workflow,
            refl,
            ap (λ (x : Workflow). x.status.statuses) unchanged,
          );
        })
    | inr unset ↦ simp unset (record {
      kept = h.kept;
      grounded = h.grounded;
      since = h.since;
      same_meta = ap (λ (x : Workflow). x.meta) h.same;
      same_spec = ap (λ (x : Workflow). x.spec) h.same;
      ending = inr (sym flag ∙ unset, ap (λ (x : Workflow). x.status.conditions) h.same);
    })
  ]

  -- `processSteps` keeps complete steps complete, and completes a step only where the job store listed
  -- one job for the step, a finished one. It finishes the workflow where all of its steps were
  -- complete, and leaves its conditions as they are where not. It creates a job only for an incomplete
  -- step for which the store listed no job, and each of whose dependencies was complete or had one job
  -- listed, a finished one; also where it panics, it has created no other job. What is listed for a
  -- step are the jobs with the labels that the step has with its own template, at a question of this
  -- run.
  pub process_steps-Processed :
      (key : String) → Runs Processed Stopped' (process_steps cluster key wf w)
  unfolding process_steps
  process_steps-Processed key =
      let p : Progress = record { workflow = wf; needs_update = false; complete = true } in
      Runs-bind (Looped cluster wf w p (entries wf.spec.steps)) Processed Stopped'
        (visit_steps cluster key (entries wf.spec.steps) p) (conclude cluster) w
        (visit_steps-Looped cluster wf w key (entries wf.spec.steps) p w
          (record {
            same = refl;
            unchanged = λ e. refl;
            kept = λ n c. c;
            grounded = λ n complete. inl complete;
            since = JobsSince-refl cluster wf w;
          })
          (λ e m. m))
        (λ p' v h. conclude-Processed p' v h.0 h.1)
