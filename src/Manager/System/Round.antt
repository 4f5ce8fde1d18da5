-- ===== src/Manager/System/Round.antt =====
-- How a worker's round keeps the fence of a step, in a round for its workflow and in any other round.
use kubernetes_workflow.Base.{
  ℕ, suc, ◌+◌, ◌≤◌, String, List, [], ◌∷◌, true, false, some, none, ◌==◌, ◌≡◌, ◌≢◌, ◌⊎◌, ◌&&◌, refl,
  sym, ◌∙◌, ap, subst, arith, eq_iff, inl, inr, Bool-cases,
}
use kubernetes_workflow.GoMap.{lookup}
use kubernetes_workflow.Api.Meta.{JobTemplateSpec}
use kubernetes_workflow.Api.Types.{Workflow}
use kubernetes_workflow.Expectations.{Expectations, expectations_satisfied, expect_creation}
use kubernetes_workflow.Expectations.Laws.{
  pending, pending-expect_creation, pending-delete_expectations,
}
use kubernetes_workflow.World.{Cluster, World}
use kubernetes_workflow.World.Runs.{Runs-map}
use kubernetes_workflow.Transitioner.State.{update_entry}
use kubernetes_workflow.Transitioner.Steps.{create_job_for_step, key_of}
use kubernetes_workflow.Transitioner.Steps.Contract.{Attempt, create_job_for_step-Attempt}
use kubernetes_workflow.Transitioner.Steps.Rule.{Fact, At, Parts}
use kubernetes_workflow.Manager.System.Fence.{
  count_named, count_named-Made, Fenced, Fenced-kept, Fenced-made,
}

-- The store has a workflow under the key.
abbrev pub Present : String → List (String × Workflow) → Type 0
Present key store = lookup key store ≢ none

update_entry-Present :
    (key k : String) (f : Workflow → Workflow) (store : List (String × Workflow))
    → Present key store
    → Present key (update_entry k f store)
unfolding update_entry lookup
update_entry-Present key k f [] there = there
update_entry-Present key k f ((j, wf) ∷ store) there =
    ground (arith, update_entry-Present key k f store)

module _ (cluster : Cluster) (key step : String) (start : ℕ) where
  abbrev pub FencedAt : ℕ → World → Type 0
  FencedAt total w = Fenced cluster key step start total w.asked w.expectations

  -- A creation for another workflow or another step leaves the step's expectation.
  pending-other :
      (k name : String) (now : ℕ) (e e' : Expectations)
      → e' ≡ expect_creation now k name e
      → (k == key) && (name == step) ≡ false
      → pending e' key step ≡ pending e key step
  pending-other k name now e e' same other =
      ap (λ (x : Expectations). pending x key step) same
      ∙ (pending-expect_creation now k name key step e ∙ simp other)

  key_of-eq :
      (wf : Workflow) (k : String) → cluster.key_func wf.meta ≡ some k → key_of cluster wf ≡ k
  key_of-eq wf k keyed = rw (keyed, key_of) refl

  -- One attempt makes no job for the step, or one.
  abbrev Attempted : ℕ → World → World → Type 0
  Attempted total w w' =
      (count_named step w'.created ≡ count_named step w.created) × FencedAt total w'
      ⊎ (count_named step w'.created ≡ suc (count_named step w.created)) × FencedAt (suc total) w'

  own-Attempt :
      (total : ℕ) (wf : Workflow) (name : String) (template : JobTemplateSpec) (w w' : World)
      → cluster.key_func wf.meta ≡ some key
      → start ≤ w.asked
      → FencedAt total w
      → Attempt cluster wf name template w w'
      → Attempted total w w'
  own-Attempt total wf name template w w' keyed from_start fenced attempt =
      let is_key = key_of-eq wf key keyed in
      let more : w.asked ≤ w'.asked = omega (arith, attempt.later) in
      elim attempt.either [
        | inl (unmade, same) ↦ inl (
          ap (count_named step) unmade,
          Fenced-kept cluster key step start w.expectations w'.expectations total more
              (ap (λ (x : Expectations). pending x key step) same) fenced,
        )
        | inr (made_one, satisfied, (question, after, earlier, expected)) ↦
            let counted = count_named-Made wf.meta.namespace step name wf template w w' made_one in
            elim (Bool-cases (name == step)) [
              | inl this ↦
                  let for_step : expectations_satisfied (cluster.now w.asked) key step
                        w.expectations
                      ≡ true =
                    cc (is_key, (eq_iff name step).0 this, satisfied) in
                  inr (
                    counted ∙ simp this,
                    subst (Fenced cluster key step start (suc total) w'.asked)
                        (cc (is_key, (eq_iff name step).0 this, expected))
                        (Fenced-made cluster key step start w.expectations total from_start after
                          earlier for_step fenced),
                  )
              | inr other ↦ inl (
                counted ∙ simp other,
                Fenced-kept cluster key step start w.expectations w'.expectations total more
                    (pending-other (key_of cluster wf) name (cluster.now question) _ _ expected
                      (ground (arith, other)))
                    fenced,
              )
            ]
      ]

  -- The jobs counted so far are `before`, and those that have come to the count `from`.
  abbrev pub Own : ℕ → ℕ → Fact
  Own before from asked e created store =
      (more : ℕ) × (start ≤ asked)
      × Present key store
      × (count_named step created ≡ from + more)
      × Fenced cluster key step start (before + more) asked e

  abbrev pub Other : ℕ → Fact
  Other total asked e created store = (start ≤ asked) × Fenced cluster key step start total asked e

  own_counted :
      (before from more : ℕ) (w w' : World)
      → start ≤ w'.asked
      → Present key w'.store
      → count_named step w.created ≡ from + more
      → Attempted (before + more) w w'
      → At (Own before from) w'
  own_counted before from more w w' a there count (inl (same, fenced)) =
      (more, a, there, same ∙ count, fenced)
  own_counted before from more w w' a there count (inr (one, fenced)) = (
    suc more,
    a,
    there,
    omega (arith, one, count),
    subst (λ (n : ℕ). Fenced cluster key step start n w'.asked w'.expectations) (omega arith)
        fenced,
  )

  pub own-Parts : (before from : ℕ) → Parts cluster key (Own before from)
  own-Parts before from = record {
    later = λ more (n, a, there, count, fenced). (
      n,
      omega (arith, more, a),
      there,
      count,
      Fenced-kept cluster key step start _ _ (before + n) more refl fenced,
    );
    creates = λ wf name template keyed w (n, a, there, count, fenced).
        Runs-map (λ u. Attempt cluster wf name template w) (λ u w'. Unit × At (Own before from) w')
          (λ v. ⊥) (At (Own before from)) (create_job_for_step cluster wf name template w)
          (create_job_for_step-Attempt cluster wf name template w)
          (λ u w' attempt. (
            tt,
            own_counted before from n w w' (omega (arith, attempt.later, a))
                (subst (Present key) (sym attempt.stored) there) count
                (own-Attempt (before + n) wf name template w w' keyed a fenced attempt),
          ))
          (λ v none_panics. absurd none_panics);
    shares = λ f same (n, a, there, count, fenced).
        (n, a, update_entry-Present key key f _ there, count, fenced);
    forgets = λ deleted (n, a, there, count, fenced). absurd (there deleted);
  }

  -- An attempt for another workflow keeps the fence.
  other-Attempt :
      (k : String) (total : ℕ) (wf : Workflow) (name : String) (template : JobTemplateSpec)
      (w w' : World)
      → k == key ≡ false
      → cluster.key_func wf.meta ≡ some k
      → FencedAt total w
      → Attempt cluster wf name template w w'
      → FencedAt total w'
  other-Attempt k total wf name template w w' other keyed fenced attempt =
      let is_key = key_of-eq wf k keyed in
      let more : w.asked ≤ w'.asked = omega (arith, attempt.later) in
      Fenced-kept cluster key step start w.expectations w'.expectations total more
        (elim attempt.either [
          | inl (unmade, same) ↦ ap (λ (x : Expectations). pending x key step) same
          | inr (made_one, satisfied, (question, after, earlier, expected)) ↦
              pending-other k name (cluster.now question) _ _
                (expected
                  ∙ ap
                      (λ (x : String). expect_creation (cluster.now question) x name w.expectations)
                      is_key)
                (ground (arith, other))
        ])
        fenced

  pub other-Parts : (k : String) (total : ℕ) → k == key ≡ false → Parts cluster k (Other total)
  other-Parts k total other = record {
    later = λ more (a, fenced).
        (omega (arith, more, a), Fenced-kept cluster key step start _ _ total more refl fenced);
    creates = λ wf name template keyed w (a, fenced).
        Runs-map (λ u. Attempt cluster wf name template w) (λ u w'. Unit × At (Other total) w')
          (λ v. ⊥) (At (Other total)) (create_job_for_step cluster wf name template w)
          (create_job_for_step-Attempt cluster wf name template w)
          (λ u w' attempt. (
            tt,
            (
              omega (arith, attempt.later, a),
              other-Attempt k total wf name template w w' other keyed fenced attempt,
            ),
          ))
          (λ v none_panics. absurd none_panics);
    shares = λ f same h. h;
    forgets = λ deleted (a, fenced). (
      a,
      Fenced-kept cluster key step start _ _ total (omega arith)
          (pending-delete_expectations k key step _ ∙ simp other) fenced,
    );
  }
