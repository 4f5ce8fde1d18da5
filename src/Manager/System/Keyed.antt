-- ===== src/Manager/System/Keyed.antt =====
-- The keys of the informer's store of workflows.
use kubernetes_workflow.Base.{
  String, List, [], ◌∷◌, Bool, some, ◌==◌, ◌≡◌, ◌⊎◌, refl, sym, ◌∙◌, ap, subst, arith, eq_iff, inl,
  inr, Bool-cases,
}
use mathlib.Core.Option.{some-injective}
use kubernetes_workflow.GoMap.{lookup, insert, erase}
use kubernetes_workflow.GoMap.Laws.{lookup-insert, lookup-erase}
use kubernetes_workflow.Api.Meta.{Job}
use kubernetes_workflow.Api.Types.{Workflow}
use kubernetes_workflow.World.{Cluster, World}
use kubernetes_workflow.World.Runs.{Runs-map}
use kubernetes_workflow.Transitioner.State.{update_entry}
use kubernetes_workflow.Transitioner.Steps.Rule.{SameName, Parts}
use kubernetes_workflow.Transitioner.Process.Rule.{KeysByName}
use kubernetes_workflow.Transitioner.Steps.{create_job_for_step}
use kubernetes_workflow.Transitioner.Steps.Contract.{Attempt, create_job_for_step-Attempt}
use kubernetes_workflow.Manager.{add_job}
use kubernetes_workflow.Manager.System.Rule.{work-Keeps, restore_ind, after_add_job_ind}
use kubernetes_workflow.Manager.System.{
  new_manager, Event, worked, job_added, job_updated, job_deleted, workflow_added, workflow_updated,
  workflow_deleted, System, stored, restore, advance, run,
}

-- What the store holds after a change of one entry: what it held, or the changed workflow.
update_entry_cases :
    (key : String) (f : Workflow → Workflow) (store : List (String × Workflow)) (k : String)
    (x : Workflow)
    → lookup k (update_entry key f store) ≡ some x
    → (old : Workflow) × (lookup k store ≡ some old) × ((x ≡ old) ⊎ (x ≡ f old))
unfolding update_entry lookup
update_entry_cases key f [] k x found = cc
update_entry_cases key f ((j, wf) ∷ store) k x found = elim (Bool-cases (j == k)) [
  | inl here ↦ (wf, ground arith, ground arith)
  | inr other ↦ elim (Bool-cases (j == key)) [
    | inl changed ↦ (x, ground arith, inl refl)
    | inr kept ↦
        let (old, there, either) = update_entry_cases key f store k x (ground arith) in
        (old, ground arith, either)
  ]
]

-- Every stored workflow is stored under its own key.
abbrev pub KeyedStore : Cluster → List (String × Workflow) → Type 0
KeyedStore cluster store =
    (k : String) (wf : Workflow) → lookup k store ≡ some wf → cluster.key_func wf.meta ≡ some k

module _ (cluster : Cluster) (by_name : KeysByName cluster) where
  -- A change of a stored workflow that leaves its name leaves its key.
  KeyedStore-update_entry :
      (key : String) (f : Workflow → Workflow) (store : List (String × Workflow))
      → SameName f
      → KeyedStore cluster store
      → KeyedStore cluster (update_entry key f store)
  KeyedStore-update_entry key f store same h k x found =
      let (old, there, either) = update_entry_cases key f store k x found in
      elim either [
        | inl kept ↦
            subst (λ (wf : Workflow). cluster.key_func wf.meta ≡ some k) (sym kept) (h k old there)
        | inr changed ↦
            subst (λ (wf : Workflow). cluster.key_func wf.meta ≡ some k) (sym changed)
              (by_name (f old).meta old.meta (same old).0 (same old).1 ∙ h k old there)
      ]

  KeyedStore-insert :
      (key : String) (wf : Workflow) (store : List (String × Workflow))
      → cluster.key_func wf.meta ≡ some key
      → KeyedStore cluster store
      → KeyedStore cluster (insert key wf store)
  KeyedStore-insert key wf store keyed h k x found = elim (Bool-cases (key == k)) [
    | inl same ↦
        let new : wf ≡ x = some-injective _ _ (rw (lookup-insert, same) at found) in
        subst (λ (y : Workflow). cluster.key_func y.meta ≡ some k) new
          (keyed ∙ ap some ((eq_iff key k).0 same))
    | inr other ↦ h k x (rw (lookup-insert, other) at found)
  ]

  KeyedStore-erase :
      (key : String) (store : List (String × Workflow))
      → KeyedStore cluster store
      → KeyedStore cluster (erase key store)
  KeyedStore-erase key store h k wf found = h k wf (ground (arith, lookup-erase key k store))

  -- A transition keeps the store keyed.
  keyed-Parts : (key : String) → Parts cluster key (λ i e c s. KeyedStore cluster s)
  keyed-Parts key = record {
    later = λ more h. h;
    creates = λ wf name template keyed w h.
        Runs-map (λ u. Attempt cluster wf name template w)
          (λ u w'. Unit × KeyedStore cluster w'.store) (λ v. ⊥) (λ v. KeyedStore cluster v.store)
          (create_job_for_step cluster wf name template w)
          (create_job_for_step-Attempt cluster wf name template w)
          (λ u w' a. (tt, subst (KeyedStore cluster) (sym a.stored) h))
          (λ v none_panics. absurd none_panics);
    shares = λ f same h. KeyedStore-update_entry key f _ same h;
    forgets = λ deleted h. h;
  }

  restore-insert-KeyedStore :
      (wf : Workflow) (w : World)
      → KeyedStore cluster w.store
      → KeyedStore cluster
          (restore (λ key store. insert key wf store) (cluster.key_func wf.meta) w).store
  restore-insert-KeyedStore wf w h =
      restore_ind (λ v. KeyedStore cluster v.store) _ (cluster.key_func wf.meta) w h
        (λ key keyed. KeyedStore-insert key wf w.store keyed h)

  pub advance-KeyedStore :
      (deep_equal : Job → Job → Bool) (e : Event) (s : System)
      → KeyedStore cluster s.world.store
      → KeyedStore cluster (advance cluster deep_equal e s).world.store
  unfolding advance
  advance-KeyedStore deep_equal (worked key) s h =
      work-Keeps cluster by_name key (λ i e c store. KeyedStore cluster store) (keyed-Parts key)
        s.world (h key) h
  advance-KeyedStore deep_equal (job_added job) s h =
      after_add_job_ind (λ v. KeyedStore cluster v.store)
        (add_job cluster job (stored s.world.store) s.world.expectations) s h (λ handled added. h)
  advance-KeyedStore deep_equal (job_updated old cur) s h = h
  advance-KeyedStore deep_equal (job_deleted deleted) s h = h
  advance-KeyedStore deep_equal (workflow_added wf) s h = restore-insert-KeyedStore wf s.world h
  advance-KeyedStore deep_equal (workflow_updated wf) s h = restore-insert-KeyedStore wf s.world h
  advance-KeyedStore deep_equal (workflow_deleted wf) s h =
      restore_ind (λ v. KeyedStore cluster v.store) _ (cluster.key_func wf.meta) s.world h
        (λ key keyed. KeyedStore-erase key s.world.store h)

  -- Every workflow of the store is stored under its own key after any events, where it was so before.
  -- Keys are made of names and namespaces.
  pub run-KeyedStore :
      (deep_equal : Job → Job → Bool) (events : List Event) (s : System)
      → KeyedStore cluster s.world.store
      → KeyedStore cluster (run cluster deep_equal events s).world.store
  unfolding run
  run-KeyedStore deep_equal [] s h = h
  run-KeyedStore deep_equal (e ∷ events) s h =
      run-KeyedStore deep_equal events (advance cluster deep_equal e s)
        (advance-KeyedStore deep_equal e s h)

  -- A new manager keeps every workflow under its own key, whatever happens to it.
  pub manager-KeyedStore :
      (deep_equal : Job → Job → Bool) (events : List Event)
      → KeyedStore cluster (run cluster deep_equal events new_manager).world.store
  unfolding new_manager lookup
  manager-KeyedStore deep_equal events =
      run-KeyedStore deep_equal events new_manager (λ k wf found. cc found)
