-- ===== src/Transitioner/Process/Declined.antt =====
-- Which workflows a transition leaves alone.
use kubernetes_workflow.Base.{
  suc, String, true, false, some, ◌≡◌, ◌⊎◌, ◌↔◌, inl, inr, refl, sym, subst, In, arith,
}
use kubernetes_workflow.GoMap.{get, lookup}
use kubernetes_workflow.Api.Types.{Workflow, WorkflowCondition}
use kubernetes_workflow.Api.Laws.{Ends, is_finished_iff}
use kubernetes_workflow.World.{Cluster, World}
use kubernetes_workflow.World.Runs.{Runs}
use kubernetes_workflow.Transitioner.State.{workflow_pause_label}
use kubernetes_workflow.Transitioner.Process.{Transition, is_paused, transition_workflow}
use kubernetes_workflow.Transitioner.Process.Laws.{may, transition_workflow_declines}

module _ (cluster : Cluster) where
  -- The job store has not synced, a condition of the workflow says that it is complete or has failed,
  -- or its pause label is "true".
  abbrev pub Barred : Workflow → World → Type 0
  Barred wf w =
      (cluster.synced w.asked ≡ false)
      ⊎ ((c : WorkflowCondition) × In c wf.status.conditions × Ends c)
      ⊎ (get workflow_pause_label wf.meta.labels ≡ some "true")

  -- Nothing of the controller's state changed in two questions, and a requeue is asked for exactly
  -- where the second one was answered with no.
  abbrev pub IsLeft : World → Transition → World → Type 0
  IsLeft w t w' =
      ((t.requeue ≡ true) ↔ (cluster.synced (suc w.asked) ≡ false))
      × (w' ≡ record w { asked = suc (suc w.asked) })

  Barred-may : (wf : Workflow) (w : World) → Barred wf w → may cluster wf w ≡ false
  unfolding is_paused
  Barred-may wf w (inl unsynced) = ground arith
  Barred-may wf w (inr (inl ended)) =
      let finished = (is_finished_iff wf).1 ended in ground (arith, finished)
  Barred-may wf w (inr (inr paused)) =
      let asked : is_paused wf ≡ true = rw (paused, is_paused) refl in ground (arith, asked)

  -- A workflow of the store is left alone where the job store has not synced, a condition of the
  -- workflow says Complete or Failed with the status True, or its pause label is "true": nothing of the
  -- controller's state changes, and it is requeued exactly where the job store answers the second
  -- question with no, whatever it answered to the first one.
  pub transition_workflow-IsLeft :
      (key : String) (wf : Workflow) (w : World)
      → lookup key w.store ≡ some wf
      → Barred wf w
      → Runs (IsLeft w) (λ v. ⊥) (transition_workflow cluster key w)
  transition_workflow-IsLeft key wf w found barred =
      subst (Runs (IsLeft w) (λ v. ⊥))
        (sym (transition_workflow_declines cluster key wf w found (Barred-may wf w barred)))
        (ground arith, refl)
