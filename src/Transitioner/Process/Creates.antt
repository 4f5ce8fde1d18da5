-- ===== src/Transitioner/Process/Creates.antt =====
-- For which workflows a transition may create jobs, and why.
use kubernetes_workflow.Base.{
  eq_iff, In, ◌≢◌, String, List, [], ◌∷◌, ◌++◌, true, false, Option, some, none, ◌≡◌, ◌⊎◌, refl,
  arith, All,
}
use kubernetes_workflow.GoMap.{GoMap, get, assign, lookup}
use kubernetes_workflow.Api.Meta.{Job}
use kubernetes_workflow.Api.Types.{Workflow, WorkflowCondition, workflow_uid_label}
use kubernetes_workflow.Api.Methods.{is_finished}
use kubernetes_workflow.Api.Laws.{Ends}
use kubernetes_workflow.Validation.Workflow.{validate_workflow}
use kubernetes_workflow.Cache.{is_empty}
use kubernetes_workflow.World.{Cluster, World}
use kubernetes_workflow.Transitioner.State.{workflow_valid_label, workflow_pause_label, with_labels}
use kubernetes_workflow.Transitioner.Steps.Jobs.{Justified}
use kubernetes_workflow.Transitioner.Process.{wants_validation, is_paused, is_workflow_valid}
use kubernetes_workflow.Transitioner.Process.Laws.{may}

empty {ℓ} : {A : Type ℓ} (l : List A) → is_empty l ≡ true → l ≡ []
empty [] h = refl
empty (x ∷ l) h = cc

module _ (cluster : Cluster) where
  pub may_parts :
      (wf : Workflow) (w : World)
      → may cluster wf w ≡ true
      → (is_finished wf ≡ false) × (is_paused wf ≡ false)
  may_parts wf w h = ground arith

  pub valid :
      (wf : Workflow)
      → is_workflow_valid cluster wf ≡ true
      → validate_workflow cluster.rules wf ≡ []
  unfolding is_workflow_valid
  valid wf h = empty (validate_workflow cluster.rules wf) h

  -- No pause label says "true".
  pub unpaused_label :
      (wf : Workflow) → is_paused wf ≡ false → get workflow_pause_label wf.meta.labels ≢ some "true"
  unfolding is_paused
  unpaused_label wf unpaused asked =
      let paused : is_paused wf ≡ true = rw (asked, is_paused) refl in cc (paused, unpaused)

  -- A label that asks for no validation is there, and is not "false".
  pub labelled_valid :
      (was : Option String)
      → wants_validation was ≡ false
      → (v : String) × (was ≡ some v) × (v ≢ "false")
  labelled_valid none h = cc h
  labelled_valid (some v) h = (v, refl, λ e. cc (h, (eq_iff v "false").1 e))

  -- The labels with which the steps are processed: those of a workflow that was labelled valid before,
  -- or those of a valid one with the valid label.
  abbrev pub Checked : Workflow → GoMap String → Type 0
  Checked wf labels =
      ((v : String) × (get workflow_valid_label wf.meta.labels ≡ some v) × (v ≢ "false"))
        × (labels ≡ wf.meta.labels)
      ⊎ (validate_workflow cluster.rules wf ≡ [])
        × (assign workflow_valid_label "true" wf.meta.labels ≡ some labels)

  -- What a transition may create jobs for: a workflow of the store, not finished and not paused, that
  -- has a UID label, and that either has a label that says it is valid, and keeps its labels, or is
  -- valid, and is labelled so. The jobs are justified by this workflow and the answers of the
  -- transition's own questions.
  pub record Creates (key : String) (w w' : World) : Type 0 where
    pub wf : Workflow
    pub found : lookup key w.store ≡ some wf
    pub unfinished : ¬ ((c : WorkflowCondition) × In c wf.status.conditions × Ends c)
    pub unpaused : get workflow_pause_label wf.meta.labels ≢ some "true"
    pub uid : String
    pub labelled : get workflow_uid_label wf.meta.labels ≡ some uid
    pub labels : GoMap String
    pub checked : Checked wf labels
    pub jobs : List (String × Job)
    pub added : w'.created ≡ jobs ++ w.created
    pub justified : All (Justified cluster (with_labels labels wf) w.asked w'.asked) jobs

  -- The jobs are the same, or the transition created some for such a workflow.
  abbrev pub MayCreate : String → World → World → Type 0
  MayCreate key w w' = (w'.created ≡ w.created) ⊎ Creates key w w'
