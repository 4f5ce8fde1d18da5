-- ===== src/Transitioner/Status/Laws.antt =====
-- What `updateWorkflowStatus` sends, how often, and how it ends.
use kubernetes_workflow.Base.{
  ℕ, zero, suc, ◌≤◌, String, List, [], ◌∷◌, ◌++◌, some, none, length, All, ◌≡◌, refl, sym, ◌∙◌, ◌⊎◌,
  inl, inr, length-append, All-append, arith,
}
use mathlib.Core.List.{append_assoc}
use kubernetes_workflow.Api.Types.{Workflow}
use kubernetes_workflow.World.{
  Cluster, UpdateAnswer, updated, status_error, other_error, VersionAnswer, not_brought,
  brought_nil, brought, World, ok,
}
use kubernetes_workflow.Transitioner.State.{retry_on_status_conflict}
use kubernetes_workflow.Transitioner.Status.{
  retries_exceeded, with_version, send_update, update_attempts, update_workflow_status,
}

pub UpdateAnswer-cases :
    (a : UpdateAnswer) → (a ≡ updated) ⊎ ((a ≡ other_error) ⊎ (a ≡ status_error))
UpdateAnswer-cases updated = inl refl
UpdateAnswer-cases status_error = inr (inr refl)
UpdateAnswer-cases other_error = inr (inl refl)

pub VersionAnswer-cases :
    (a : VersionAnswer)
    → (a ≡ not_brought) ⊎ ((a ≡ brought_nil) ⊎ ((version : String) × (a ≡ brought version)))
VersionAnswer-cases not_brought = inl refl
VersionAnswer-cases brought_nil = inr (inl refl)
VersionAnswer-cases (brought version) = inr (inr (version, refl))

-- What the attempts may have sent: `wf`, so many times at most, with any resource version.
pub record Sent (wf : Workflow) (limit : ℕ) (w w' : World) : Type 0 where
  pub sent : List Workflow
  pub added : w'.updates ≡ sent ++ w.updates
  pub bounded : length sent ≤ limit
  pub same : All (λ u. (rv : String) × (u ≡ with_version rv wf)) sent
  pub later : w.asked ≤ w'.asked
  pub rest :
      (w'.store ≡ w.store)
      × (w'.expectations ≡ w.expectations)
      × (w'.created ≡ w.created)
      × (w'.events ≡ w.events)

module _ (cluster : Cluster) where
  -- The answers for the workflow meet `count` conflicts in a row from the question `i` on, each with a newer version.
  abbrev pub Conflicts : ℕ → ℕ → Workflow → Type 0
  Conflicts zero i wf = Unit
  Conflicts (suc count) i wf =
      ((rv : String) → cluster.update i (with_version rv wf) ≡ status_error)
      × ((version : String) × (cluster.get_version (suc i) wf.meta.namespace wf.meta.name
            ≡ brought version))
      × Conflicts count (suc (suc i)) wf

  -- The number of the question that follows so many conflicts.
  abbrev pub after : ℕ → ℕ → ℕ
  after zero i = i
  after (suc count) i = after count (suc (suc i))

  -- One attempt that meets a conflict leads to the next one, with the version that was brought.
  attempt_conflict :
      (left : ℕ) (wf : Workflow) (rv version : String) (w : World)
      → cluster.update w.asked (with_version rv wf) ≡ status_error
      → cluster.get_version (suc w.asked) wf.meta.namespace wf.meta.name ≡ brought version
      → update_attempts cluster (suc left) wf rv w
        ≡ update_attempts cluster left wf version
            (record w { asked = suc (suc w.asked); updates = with_version rv wf ∷ w.updates })
  unfolding update_attempts send_update
  attempt_conflict left wf rv version w u g = simp (u, g)

  attempt_updated :
      (left : ℕ) (wf : Workflow) (rv : String) (w : World)
      → cluster.update w.asked (with_version rv wf) ≡ updated
      → (update_attempts cluster left wf rv w).0 ≡ ok none
  unfolding update_attempts send_update
  attempt_updated zero wf rv w u = simp u
  attempt_updated (suc left) wf rv w u = simp u

  attempt_last :
      (wf : Workflow) (rv : String) (w : World)
      → cluster.update w.asked (with_version rv wf) ≡ status_error
      → (update_attempts cluster zero wf rv w).0 ≡ ok (some retries_exceeded)
  unfolding update_attempts send_update
  attempt_last wf rv w u = simp u

  update_attempts_succeed :
      (count left : ℕ) (wf : Workflow) (rv : String) (w : World)
      → count ≤ left
      → Conflicts count w.asked wf
      → ((rv : String) → cluster.update (after count w.asked) (with_version rv wf) ≡ updated)
      → (update_attempts cluster left wf rv w).0 ≡ ok none
  update_attempts_succeed zero left wf rv w h c u = attempt_updated left wf rv w (u _)
  update_attempts_succeed (suc count) zero wf rv w h c u = absurd (omega arith)
  update_attempts_succeed (suc count) (suc left) wf rv w h c u =
      let (version, got) = c.1 in
      rw (attempt_conflict left wf rv version w (c.0 _) got)
        (update_attempts_succeed count left wf version _ (omega arith) c.2 u)

  -- The update succeeds if the server accepts it after at most three conflicts, each followed by a
  -- `Get` that brings the workflow.
  pub update_workflow_status_succeeds :
      (count : ℕ) (wf : Workflow) (w : World)
      → count ≤ retry_on_status_conflict
      → Conflicts count w.asked wf
      → ((rv : String) → cluster.update (after count w.asked) (with_version rv wf) ≡ updated)
      → (update_workflow_status cluster wf w).0 ≡ ok none
  unfolding update_workflow_status
  update_workflow_status_succeeds count wf w h c u =
      update_attempts_succeed count retry_on_status_conflict wf wf.meta.resource_version w h c u

  update_attempts_exceed :
      (left : ℕ) (wf : Workflow) (rv : String) (w : World)
      → Conflicts left w.asked wf
      → ((rv : String) → cluster.update (after left w.asked) (with_version rv wf) ≡ status_error)
      → (update_attempts cluster left wf rv w).0 ≡ ok (some retries_exceeded)
  update_attempts_exceed zero wf rv w c u = attempt_last wf rv w (u _)
  update_attempts_exceed (suc left) wf rv w c u =
      let (version, got) = c.1 in
      rw (attempt_conflict left wf rv version w (c.0 _) got)
        (update_attempts_exceed left wf version _ c.2 u)

  -- A fourth conflict in a row ends the update with an error.
  pub update_workflow_status_exceeds :
      (wf : Workflow) (w : World)
      → Conflicts retry_on_status_conflict w.asked wf
      → ((rv : String)
          → cluster.update (after retry_on_status_conflict w.asked) (with_version rv wf)
            ≡ status_error)
      → (update_workflow_status cluster wf w).0 ≡ ok (some retries_exceeded)
  unfolding update_workflow_status
  update_workflow_status_exceeds wf w c u =
      update_attempts_exceed retry_on_status_conflict wf wf.meta.resource_version w c u

  Sent-one :
      (wf : Workflow) (rv : String) (limit n : ℕ) (w : World)
      → w.asked ≤ n
      → Sent wf (suc limit) w (record w { asked = n; updates = with_version rv wf ∷ w.updates })
  Sent-one wf rv limit n w l = record {
    sent = with_version rv wf ∷ [];
    added = refl;
    bounded = omega arith;
    same = ((rv, refl), tt);
    later = l;
    rest = (refl, refl, refl, refl);
  }

  Sent-cons :
      (wf : Workflow) (rv : String) (limit n : ℕ) (w w' : World)
      → w.asked ≤ n
      → Sent wf limit (record w { asked = n; updates = with_version rv wf ∷ w.updates }) w'
      → Sent wf (suc limit) w w'
  Sent-cons wf rv limit n w w' l h = record {
    sent = h.sent ++ with_version rv wf ∷ [];
    added = h.added ∙ sym (append_assoc h.sent (with_version rv wf ∷ []) w.updates);
    bounded = omega (arith, length-append h.sent (with_version rv wf ∷ []), h.bounded);
    same = All-append _ h.sent (with_version rv wf ∷ []) h.same ((rv, refl), tt);
    later = omega (arith, l, h.later);
    rest = h.rest;
  }

  update_attempts-Sent :
      (left : ℕ) (wf : Workflow) (rv : String) (w : World)
      → Sent wf (suc left) w (update_attempts cluster left wf rv w).1
  unfolding update_attempts send_update
  update_attempts-Sent zero wf rv w =
      elim (UpdateAnswer-cases (cluster.update w.asked (with_version rv wf))) [
        | inl u ↦ simp u (Sent-one wf rv zero _ w (omega arith))
        | inr (inl u) ↦ simp u (Sent-one wf rv zero _ w (omega arith))
        | inr (inr u) ↦ simp u (Sent-one wf rv zero _ w (omega arith))
      ]
  update_attempts-Sent (suc left) wf rv w =
      elim (UpdateAnswer-cases (cluster.update w.asked (with_version rv wf))) [
        | inl u ↦ simp u (Sent-one wf rv _ _ w (omega arith))
        | inr (inl u) ↦ simp u (Sent-one wf rv _ _ w (omega arith))
        | inr (inr u) ↦
            elim (VersionAnswer-cases
              (cluster.get_version (suc w.asked) wf.meta.namespace wf.meta.name)) [
                | inl g ↦ simp (u, g) (Sent-one wf rv _ _ w (omega arith))
                | inr (inl g) ↦ simp (u, g) (Sent-one wf rv _ _ w (omega arith))
                | inr (inr (version, g)) ↦
                    simp (u, g)
                      (Sent-cons wf rv _ _ w _ (omega arith)
                        (update_attempts-Sent left wf version _))
              ]
      ]

  -- The update sends the workflow at most four times, changed in its resource version only, and
  -- changes nothing else of the controller's state.
  pub update_workflow_status-Sent :
      (wf : Workflow) (w : World) → Sent wf 4 w (update_workflow_status cluster wf w).1
  unfolding update_workflow_status
  update_workflow_status-Sent wf w =
      update_attempts-Sent retry_on_status_conflict wf wf.meta.resource_version w

  -- An update that is accepted at once.
  pub update_workflow_status-accepted :
      (wf : Workflow) (w : World)
      → cluster.update w.asked (with_version wf.meta.resource_version wf) ≡ updated
      → update_workflow_status cluster wf w
        ≡ (ok none, record w { asked = suc w.asked; updates = wf ∷ w.updates })
  unfolding update_workflow_status update_attempts send_update
  update_workflow_status-accepted wf w accepted = simp accepted
