-- ===== src/Transitioner/Process/Rule.antt =====
-- The rule of a transition: what its smallest parts keep, the whole of it keeps, also where it panics.
use kubernetes_workflow.Base.{
  ℕ, zero, suc, String, Bool, true, false, ◌||◌, Option, some, none, ◌≡◌, refl, ◌∙◌, inl, inr,
  Bool-cases, Option-cases,
}
use kubernetes_workflow.GoMap.{GoMap, assign, lookup}
use kubernetes_workflow.Api.Meta.{ObjectMeta}
use kubernetes_workflow.Api.Types.{Workflow}
use kubernetes_workflow.Api.Methods.{set_defaults}
use kubernetes_workflow.World.{Cluster, World, Action, pure}
use kubernetes_workflow.World.Runs.{Runs, Runs-map}
use kubernetes_workflow.Transitioner.State.{
  workflow_valid_label, with_labels, share_labels, share_selector,
}
use kubernetes_workflow.Transitioner.Status.{
  with_version, send_update, update_attempts, update_workflow_status,
}
use kubernetes_workflow.Transitioner.Status.Laws.{UpdateAnswer-cases, VersionAnswer-cases}
use kubernetes_workflow.Transitioner.Steps.{process_steps}
use kubernetes_workflow.Transitioner.Steps.Rule.{
  Fact, At, Keeping, Parts, Keeps-bind, asked_more, asked_twice, process_steps-Keeps,
}
use kubernetes_workflow.Transitioner.Process.{
  wants_validation, is_workflow_valid, set_defaults_on_copy, process_labelled, label_validity,
  process_by_labels, process, preconditions_met, finish_transition, decline, transition_existing,
  transition_workflow,
}
use kubernetes_workflow.Transitioner.Process.Laws.{may}

-- The key of an object is made of its name and its namespace.
abbrev pub KeysByName : Cluster → Type 0
KeysByName cluster =
    (meta meta' : ObjectMeta)
    → meta.name ≡ meta'.name
    → meta.namespace ≡ meta'.namespace
    → cluster.key_func meta ≡ cluster.key_func meta'

-- The workflow that the store has under the key, if it has one, is stored under its own key.
abbrev pub StoredByKey : Cluster → String → World → Type 0
StoredByKey cluster key w =
    (wf : Workflow) → lookup key w.store ≡ some wf → cluster.key_func wf.meta ≡ some key

module _ (cluster : Cluster) (by_name : KeysByName cluster) (key : String) (P : Fact)
    (parts : Parts cluster key P) where
  open parts use {later, shares, forgets}

  abbrev Keeps {ℓ} : {A : Type ℓ} → Action A → Type 0
  Keeps m = Keeping P (λ _. Unit) m

  update_attempts-Keeps :
      (left : ℕ) (wf : Workflow) (rv : String) → Keeps (update_attempts cluster left wf rv)
  unfolding update_attempts send_update
  update_attempts-Keeps zero wf rv w h =
      elim (UpdateAnswer-cases (cluster.update w.asked (with_version rv wf))) [
        | inl u ↦ simp u (tt, later asked_more h)
        | inr (inl u) ↦ simp u (tt, later asked_more h)
        | inr (inr u) ↦ simp u (tt, later asked_more h)
      ]
  update_attempts-Keeps (suc left) wf rv w h =
      elim (UpdateAnswer-cases (cluster.update w.asked (with_version rv wf))) [
        | inl u ↦ simp u (tt, later asked_more h)
        | inr (inl u) ↦ simp u (tt, later asked_more h)
        | inr (inr u) ↦
            elim (VersionAnswer-cases
              (cluster.get_version (suc w.asked) wf.meta.namespace wf.meta.name)) [
                | inl g ↦ simp (u, g) (tt, later asked_twice h)
                | inr (inl g) ↦ simp (u, g) (later asked_twice h)
                | inr (inr (version, g)) ↦
                    simp (u, g) (update_attempts-Keeps left wf version _ (later asked_twice h))
              ]
      ]

  finish_transition-Keeps : (r : Workflow × Bool) → Keeps (finish_transition cluster r)
  unfolding finish_transition update_workflow_status
  finish_transition-Keeps (wf, false) w h = (tt, h)
  finish_transition-Keeps (wf, true) w h =
      Keeps-bind cluster key P parts (λ _. Unit) (λ _. Unit) (update_workflow_status cluster wf) _
        (update_attempts-Keeps _ wf _) (λ e q v g. (tt, g)) w h

  module _ (wf : Workflow) (keyed : cluster.key_func wf.meta ≡ some key) where
    process_steps_labelled :
        (labels : GoMap String) → Keeps (process_steps cluster key (with_labels labels wf))
    process_steps_labelled labels w h =
        Runs-map _ (λ r w'. Unit × At P w') (At P) (At P) _
          (process_steps-Keeps cluster key P parts (with_labels labels wf)
            (by_name (with_labels labels wf).meta wf.meta refl refl ∙ keyed) w h)
          (λ r w' k. (tt, k.1)) (λ w' k. k)

    label_validity-Keeps :
        (was : Option String) (valid : Bool) → Keeps (label_validity cluster key wf was valid)
    unfolding label_validity process_labelled share_labels
    label_validity-Keeps was false w h =
        elim (Option-cases (assign workflow_valid_label "false" wf.meta.labels)) [
          | inl nil ↦ simp nil h
          | inr (labels, written) ↦ simp written (tt, shares _ (λ x. (refl, refl)) h)
        ]
    label_validity-Keeps was true w h =
        elim (Option-cases (assign workflow_valid_label "true" wf.meta.labels)) [
          | inl nil ↦ simp nil h
          | inr (labels, written) ↦ simp written (
              Keeps-bind cluster key P parts (λ _. Unit) (λ _. Unit)
                (process_steps cluster key (with_labels labels wf)) (λ r. pure (r.0, r.1 || true))
                (process_steps_labelled labels) (λ r q v k. (tt, k)) _
                (shares _ (λ x. (refl, refl)) h))
        ]

    set_defaults-Keeps : Keeps (set_defaults_on_copy cluster key wf)
    unfolding set_defaults_on_copy share_labels share_selector
    set_defaults-Keeps w h = elim (Option-cases (set_defaults (cluster.now w.asked) wf)) [
      | inl nil ↦ simp nil (shares _ (λ x. (refl, refl)) (later asked_more h))
      | inr (wf', made_it) ↦
          simp made_it
            (tt, shares _ (λ x. (refl, refl)) (shares _ (λ x. (refl, refl)) (later asked_more h)))
    ]

    process_by_labels-Keeps :
        (uid was : Option String) → Keeps (process_by_labels cluster key wf uid was)
    unfolding process_by_labels
    process_by_labels-Keeps none was w h = set_defaults-Keeps w h
    process_by_labels-Keeps (some uid) was w h = elim (Bool-cases (wants_validation was)) [
      | inl wants ↦ simp wants (label_validity-Keeps was (is_workflow_valid cluster wf) w h)
      | inr checked ↦ simp checked (process_steps_labelled wf.meta.labels w h)
    ]

    process-Keeps : Keeps (process cluster key wf)
    unfolding process
    process-Keeps = process_by_labels-Keeps _ _

    transition_existing-Keeps : Keeps (transition_existing cluster key wf)
    unfolding transition_existing preconditions_met decline
    transition_existing-Keeps w h = elim (Bool-cases (may cluster wf w)) [
      | inr declined ↦ simp declined (tt, later asked_twice h)
      | inl met ↦ simp met (
          Keeps-bind cluster key P parts (λ _. Unit) (λ _. Unit) (process cluster key wf)
            (finish_transition cluster) process-Keeps (λ r q. finish_transition-Keeps r) _
            (later asked_more h))
    ]

  -- A transition keeps what its smallest parts keep, also where it panics.
  pub transition_workflow-Keeps :
      (w : World)
      → StoredByKey cluster key w
      → At P w
      → Runs (λ t w'. At P w') (At P) (transition_workflow cluster key w)
  unfolding transition_workflow
  transition_workflow-Keeps w stored h = elim (Option-cases (lookup key w.store)) [
    | inl deleted ↦ simp deleted (forgets deleted h)
    | inr (wf, found) ↦ simp found (
        Runs-map (λ t w'. Unit × At P w') (λ t w'. At P w') (At P) (At P) _
          (transition_existing-Keeps wf (stored wf found) w h) (λ t w' k. k.1) (λ w' k. k))
  ]
