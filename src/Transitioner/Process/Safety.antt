-- ===== src/Transitioner/Process/Safety.antt =====
-- That a transition creates jobs only as Process.Creates allows.
use kubernetes_workflow.Base.{
  ◌≤◌, String, [], ◌++◌, Bool, true, false, ◌||◌, Option, some, none, ◌≡◌, inl, inr, refl, sym, ◌∙◌,
  ap, subst, arith, Bool-cases, Option-cases,
}
use kubernetes_workflow.GoMap.{GoMap, get, assign, lookup}
use kubernetes_workflow.Api.Types.{Workflow, workflow_uid_label}
use kubernetes_workflow.Api.Methods.{is_finished, set_defaults}
use kubernetes_workflow.Api.Laws.{is_finished_iff}
use kubernetes_workflow.Validation.Workflow.{validate_workflow}
use kubernetes_workflow.World.{Cluster, World, Result, ok, panicked, pure}
use kubernetes_workflow.World.Runs.{Runs, Runs-bind, Runs-map}
use kubernetes_workflow.Transitioner.State.{
  workflow_valid_label, with_labels, share_labels, share_selector,
}
use kubernetes_workflow.Transitioner.Status.{update_workflow_status}
use kubernetes_workflow.Transitioner.Status.Laws.{update_workflow_status-Sent}
use kubernetes_workflow.Transitioner.Steps.{process_steps}
use kubernetes_workflow.Transitioner.Steps.Jobs.{Justified-within, JobsSince}
use kubernetes_workflow.Transitioner.Steps.Outcome.{Processed, process_steps-Processed}
use kubernetes_workflow.Transitioner.Process.{
  wants_validation, is_paused, is_workflow_valid, set_defaults_on_copy, process_labelled,
  label_validity, process_by_labels, process, preconditions_met, finish_transition, decline,
  transition_existing, transition_workflow,
}
use kubernetes_workflow.Transitioner.Process.Laws.{may}
use kubernetes_workflow.Transitioner.Process.Creates.{
  may_parts, valid, unpaused_label, labelled_valid, Checked, Creates, MayCreate,
}

Result-cases :
    {A : Type 0} (P : World → Type 0) (r : Result A × World) → P r.1 → Runs (λ a w'. P w') P r
Result-cases P (ok a, w) h = h
Result-cases P (panicked, w) h = h

module _ (cluster : Cluster) where
  module _ (key : String) (wf : Workflow) (w : World) (found : lookup key w.store ≡ some wf)
      (unfinished : is_finished wf ≡ false) (unpaused : is_paused wf ≡ false) where
    process_steps-MayCreate :
        (uid : String) (labels : GoMap String) (v : World)
        → get workflow_uid_label wf.meta.labels ≡ some uid
        → Checked cluster wf labels
        → (v.created ≡ w.created) × (w.asked ≤ v.asked)
        → Runs
            (λ r w'. MayCreate cluster key w w')
            (MayCreate cluster key w)
            (process_steps cluster key (with_labels labels wf) v)
    process_steps-MayCreate uid labels v has checked same =
        let wf' = with_labels labels wf in
        let creates = λ (w' : World) (h : JobsSince cluster wf' v w').
          let c : Creates cluster key w w' = record {
            wf = wf;
            found = found;
            unfinished = λ ended. cc ((is_finished_iff wf).1 ended, unfinished);
            unpaused = unpaused_label cluster wf unpaused;
            uid = uid;
            labelled = has;
            labels = labels;
            checked = checked;
            jobs = h.jobs;
            added = h.added ∙ ap (λ l. h.jobs ++ l) same.0;
            justified =
                Justified-within cluster wf' v.asked w'.asked w.asked w'.asked same.1 (omega arith)
                  h.jobs h.justified;
          } in
          c in
        Runs-map (Processed cluster wf' v) (λ r w'. MayCreate cluster key w w')
          (JobsSince cluster wf' v) (MayCreate cluster key w) _
          (process_steps-Processed cluster wf' v key) (λ r w' h. inr (creates w' h.since))
          (λ w' h. inr (creates w' h))

    -- Nothing was created so far.
    abbrev Same : World → Type 0
    Same w' = (w'.created ≡ w.created) × (w.asked ≤ w'.asked)

    abbrev Safe : {A : Type 0} → Result A × World → Type 0
    Safe r = Runs (λ a w'. MayCreate cluster key w w') (MayCreate cluster key w) r

    label_validity-Safe :
        (uid : String) (v : World)
        → get workflow_uid_label wf.meta.labels ≡ some uid
        → (valid_now : Bool) → (valid_now ≡ true → validate_workflow cluster.rules wf ≡ [])
        → Same v
        → Safe (label_validity cluster key wf (get workflow_valid_label wf.meta.labels) valid_now v)
    unfolding label_validity process_labelled share_labels
    label_validity-Safe uid v has false checks same =
        elim (Option-cases (assign workflow_valid_label "false" wf.meta.labels)) [
          | inl nil ↦ simp nil (inl same.0)
          | inr (labels, written) ↦ simp written (inl same.0)
        ]
    label_validity-Safe uid v has true checks same =
        elim (Option-cases (assign workflow_valid_label "true" wf.meta.labels)) [
          | inl nil ↦ simp nil (inl same.0)
          | inr (labels, written) ↦ simp written (
              Runs-bind (λ r w'. MayCreate cluster key w w') (λ r w'. MayCreate cluster key w w')
                (MayCreate cluster key w) (process_steps cluster key (with_labels labels wf))
                (λ r. pure (r.0, r.1 || true)) _
                (process_steps-MayCreate uid labels _ has (inr (checks refl, written)) same)
                (λ r w' h. h))
        ]

    set_defaults_Safe : (v : World) → Same v → Safe (set_defaults_on_copy cluster key wf v)
    unfolding set_defaults_on_copy share_labels share_selector
    set_defaults_Safe v same = elim (Option-cases (set_defaults (cluster.now v.asked) wf)) [
      | inl nil ↦ simp nil (inl same.0)
      | inr (wf', made_it) ↦ simp made_it (inl same.0)
    ]

    abbrev by_labels : Option String → World → Result (Workflow × Bool) × World
    by_labels uid v =
        process_by_labels cluster key wf uid (get workflow_valid_label wf.meta.labels) v

    unlabelled_Safe : (v : World) → Same v → Safe (by_labels none v)
    unfolding process_by_labels
    unlabelled_Safe v same = set_defaults_Safe v same

    labelled_Safe :
        (uid : String) (v : World)
        → get workflow_uid_label wf.meta.labels ≡ some uid
        → Same v
        → Safe (by_labels (some uid) v)
    unfolding process_by_labels
    labelled_Safe uid v has same =
        elim (Bool-cases (wants_validation (get workflow_valid_label wf.meta.labels))) [
          | inl wants ↦
              simp wants (
                label_validity-Safe uid v has (is_workflow_valid cluster wf) (valid cluster wf)
                  same)
          | inr checked ↦ simp checked (
              process_steps-MayCreate uid wf.meta.labels v has
                (inl (labelled_valid cluster _ checked, refl)) same)
        ]

    process-Safe : (v : World) → Same v → Safe (process cluster key wf v)
    unfolding process
    process-Safe v same = elim (Option-cases (get workflow_uid_label wf.meta.labels)) [
      | inl absent ↦ subst (λ o. Safe (by_labels o v)) (sym absent) (unlabelled_Safe v same)
      | inr (uid, has) ↦ subst (λ o. Safe (by_labels o v)) (sym has) (labelled_Safe uid v has same)
    ]

    Creates-after :
        (v v' : World)
        → v'.created ≡ v.created
        → v.asked ≤ v'.asked
        → MayCreate cluster key w v
        → MayCreate cluster key w v'
    Creates-after v v' e l (inl same) = inl (e ∙ same)
    Creates-after v v' e l (inr c) = inr (record {
      wf = c.wf;
      found = c.found;
      unfinished = c.unfinished;
      unpaused = c.unpaused;
      uid = c.uid;
      labelled = c.labelled;
      labels = c.labels;
      checked = c.checked;
      jobs = c.jobs;
      added = e ∙ c.added;
      justified =
          Justified-within cluster (with_labels c.labels c.wf) w.asked v.asked w.asked v'.asked
            (omega arith) l c.jobs c.justified;
    })

    finish_Safe :
        (r : Workflow × Bool) (v : World)
        → MayCreate cluster key w v
        → Safe (finish_transition cluster r v)
    unfolding finish_transition
    finish_Safe (wf', false) v h = h
    finish_Safe (wf', true) v h =
        let sent = update_workflow_status-Sent cluster wf' v in
        let after =
          Creates-after v (update_workflow_status cluster wf' v).1 sent.rest.2 sent.later h in
        Runs-bind (λ e w'. MayCreate cluster key w w') (λ t w'. MayCreate cluster key w w')
          (MayCreate cluster key w) (update_workflow_status cluster wf') _ v
          (Result-cases (MayCreate cluster key w) (update_workflow_status cluster wf' v) after)
          (λ e w' m. m)

  existing_Safe :
      (key : String) (wf : Workflow) (w : World)
      → lookup key w.store ≡ some wf
      → Runs
          (λ t w'. MayCreate cluster key w w')
          (MayCreate cluster key w)
          (transition_existing cluster key wf w)
  unfolding transition_existing preconditions_met decline
  existing_Safe key wf w found = elim (Bool-cases (may cluster wf w)) [
    | inr declined ↦ simp declined (inl refl)
    | inl met ↦
        let (unfinished, unpaused) = may_parts cluster wf w met in
        simp met (
          Runs-bind (λ r w'. MayCreate cluster key w w') (λ t w'. MayCreate cluster key w w')
            (MayCreate cluster key w) (process cluster key wf) (finish_transition cluster) _
            (process-Safe key wf w found unfinished unpaused _ (refl, omega arith))
            (λ r v h. finish_Safe key wf w found unfinished unpaused r v h))
  ]

  -- A transition, also one that panics, creates jobs only for a workflow of the store under its key
  -- that is not finished and not paused, has a UID label, and is valid or has a valid label other than
  -- "false"; and each job only for an incomplete step of it for which the job store listed no job, and
  -- each of whose dependencies was complete or had one job listed, a finished one. What is listed for a
  -- step are the jobs with the labels that the step has with its own template, at a question of this
  -- transition.
  pub transition_workflow-MayCreate :
      (key : String) (w : World)
      → Runs
          (λ t w'. MayCreate cluster key w w')
          (MayCreate cluster key w)
          (transition_workflow cluster key w)
  unfolding transition_workflow
  transition_workflow-MayCreate key w = elim (Option-cases (lookup key w.store)) [
    | inl deleted ↦ simp deleted (inl refl)
    | inr (wf, found) ↦ simp found (existing_Safe key wf w found)
  ]
