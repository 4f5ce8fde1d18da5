-- ===== src/Manager/System/Finish.antt =====
-- Turn after turn, until the stored workflow is finished.
use kubernetes_workflow.Base.{
  ℕ, zero, suc, ◌+◌, ◌<◌, String, List, [], Bool, true, false, some, ◌≡◌, inl, inr, refl, sym, ap,
  ◌∙◌, subst, arith, In, Bool-cases,
}
use kubernetes_workflow.GoMap.{made, entries, keys, lookup}
use kubernetes_workflow.GoMap.Laws.{lookup_of_In}
use kubernetes_workflow.Api.Meta.{Job}
use kubernetes_workflow.Api.Types.{Workflow, WorkflowSpec, WorkflowStepStatus}
use kubernetes_workflow.Api.Methods.{all_complete, is_finished}
use kubernetes_workflow.Validation.Sort.Correct.{KeepsElements}
use kubernetes_workflow.Validation.Workflow.{validate_workflow}
use kubernetes_workflow.Validation.Workflow.Laws.{IsRunnable, validate_workflow-IsRunnable}
use kubernetes_workflow.World.{Cluster}
use kubernetes_workflow.Transitioner.Steps.Finishing.{AdvancedAll}
use kubernetes_workflow.Transitioner.Steps.Completion.{
  BelowComplete, BelowComplete-suc, all_complete_of, bound_of,
}
use kubernetes_workflow.Manager.System.{System}
use kubernetes_workflow.Manager.System.Turns.{turn-sent, turn-quiet, turn, turns}
use kubernetes_workflow.Manager.System.Labelled.{
  Cooperates, IsLabelled, IsLater, Moved, work-SentOrStill,
}

module _ (cluster : Cluster) (key : String) (base : Workflow) (helps : Cooperates cluster key base)
    (labelled : IsLabelled base) where
  module _ (deep_equal : Job → Job → Bool) where
    -- After a turn the store has what the round made of the workflow.
    turn-Moved :
        (wf : Workflow) (s : System)
        → lookup key s.world.store ≡ some wf
        → IsLater cluster key base helps labelled wf
        → is_finished wf ≡ false
        → (wf' : Workflow) × Moved cluster key base helps labelled wf wf'
          × (lookup key (turn cluster deep_equal key s).world.store ≡ some wf')
    turn-Moved wf s found later open_one =
        let (wf', moved, either) =
          work-SentOrStill cluster key base helps labelled wf s.world found later open_one in
        (
          wf',
          moved,
          elim either [
            | inl sent ↦
                turn-sent cluster deep_equal key wf' s sent
                  (ap cluster.key_func moved.0.0.0 ∙ helps.keyed)
            | inr (quiet, stored, same) ↦
                ap (lookup key) (turn-quiet cluster deep_equal key s quiet stored)
                ∙ found
                ∙ ap some (sym same)
          ],
        )

    -- After some turns the stored workflow is finished.
    abbrev pub FinishesFrom : System → Type 0
    FinishesFrom s =
        (n : ℕ) × (wf : Workflow) × (lookup key (turns cluster deep_equal key n s).world.store
          ≡ some wf)
        × (is_finished wf ≡ true)

    pub FinishesFrom-turn :
        (s : System) → FinishesFrom (turn cluster deep_equal key s) → FinishesFrom s
    unfolding turns
    FinishesFrom-turn s (n, wf, found, finished) = (suc n, wf, found, finished)

    FinishesFrom-now :
        (wf : Workflow) (s : System)
        → lookup key s.world.store ≡ some wf
        → is_finished wf ≡ true
        → FinishesFrom s
    unfolding turns
    FinishesFrom-now wf s found finished = (0, wf, found, finished)

    module _ (runnable : IsRunnable (entries base.spec.steps)) where
      abbrev pub IsBelow : ℕ → Workflow → Type 0
      IsBelow level wf = BelowComplete cluster key base helps.jobs runnable level wf

      pub turns-finish :
          (rounds level : ℕ) (wf : Workflow) (s : System)
          → lookup key s.world.store ≡ some wf
          → IsLater cluster key base helps labelled wf
          → IsBelow level wf
          → ((n : String)
              → In n (keys (entries base.spec.steps))
              → runnable.rank n < level + rounds)
          → FinishesFrom s
      turns-finish zero level wf s found later below bounded = elim (Bool-cases (is_finished wf)) [
        | inl finished ↦ FinishesFrom-now wf s found finished
        | inr open_one ↦
            let (wf', moved, found') = turn-Moved wf s found later open_one in
            FinishesFrom-turn s (
              FinishesFrom-now wf' _ found' (
                moved.1 (
                  subst
                    (λ (x : WorkflowSpec).
                      all_complete wf.status.statuses (keys (entries x.steps)) ≡ true)
                    (sym later.1)
                    (all_complete_of wf.status.statuses (keys (entries base.spec.steps)) (λ d there.
                      let (step, has) = lookup_of_In d (entries base.spec.steps) there in
                      below d step has (omega (arith, bounded d there)))))))
      ]
      turns-finish (suc rounds) level wf s found later below bounded =
          elim (Bool-cases (is_finished wf)) [
            | inl finished ↦ FinishesFrom-now wf s found finished
            | inr open_one ↦
                let (wf', moved, found') = turn-Moved wf s found later open_one in
                FinishesFrom-turn s (
                  turns-finish rounds (suc level) wf' _ found' moved.0.0
                    (BelowComplete-suc cluster key base helps.jobs runnable level wf wf' below (
                      subst
                        (λ (x : WorkflowSpec).
                          AdvancedAll cluster key base helps.jobs wf (entries x.steps) wf')
                        later.1 moved.0))
                    (λ n there. omega (arith, bounded n there)))
          ]

-- A stored workflow without errors is finished after some turns, in which a worker is given its key and
-- the informer reports what the round sent: where it has its labels and is not asked to pause, its map
-- of statuses is made, the job store has synced and has one job of each step, which is finished and to
-- which a reference can be made, and the server accepts every update of it. The sort of texts keeps the
-- elements of a list.
pub turns_finish :
    (cluster : Cluster) (deep_equal : Job → Job → Bool) (key : String) (wf : Workflow)
    (statuses : List (String × WorkflowStepStatus)) (s : System)
    → KeepsElements cluster.rules.sort_strings
    → validate_workflow cluster.rules wf ≡ []
    → wf.status.statuses ≡ made statuses
    → Cooperates cluster key wf
    → IsLabelled wf
    → lookup key s.world.store ≡ some wf
    → (n : ℕ) × (wf' : Workflow) × (lookup key (turns cluster deep_equal key n s).world.store
        ≡ some wf')
      × (is_finished wf' ≡ true)
turns_finish cluster deep_equal key wf statuses s keeps valid was helps labelled found =
    let runnable = (validate_workflow-IsRunnable cluster.rules keeps wf valid).0 in
    let (bound, below) = bound_of runnable.rank (keys (entries wf.spec.steps)) in
    turns-finish cluster key wf helps labelled deep_equal runnable bound 0 wf s found
      (refl, refl, (statuses, was)) (λ name step has low. absurd (omega (arith, low)))
      (λ n there. omega (arith, below n there))
