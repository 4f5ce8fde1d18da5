-- ===== src/Dax/Laws.antt =====
-- The steps of a converted graph.
use kubernetes_workflow.Base.{
  ℕ, suc, String, List, [], ◌∷◌, Bool, Option, some, none, ◌==◌, ◌≡◌, ◌⊎◌, inl, inr, refl, sym, ap,
  arith, eq_iff, In, subst, Bool-cases, Option-cases,
}
use kubernetes_workflow.GoMap.{Entries, entries, lookup, insert, keys}
use kubernetes_workflow.GoMap.Laws.{lookup-insert, lookup-insert_self, In-keys}
use kubernetes_workflow.Api.Types.{WorkflowStep}
use kubernetes_workflow.Validation.Sort.Correct.{IsClosed}
use kubernetes_workflow.Dax.{
  Child, Adag, Tools, new_step, lower_all, child_map, dependencies_of, add_steps, convert,
}

module _ {V : Type 0} where
  -- What is read after a write is the new value, or was there.
  insert_cases :
      (j k : String) (v x : V) (m : Entries V)
      → lookup k (insert j v m) ≡ some x
      → ((j ≡ k) × (v ≡ x)) ⊎ (lookup k m ≡ some x)
  insert_cases j k v x m found = ground (arith, eq_iff j k, lookup-insert j k v m)

  -- A key that is written or was there is there.
  insert_there :
      (j k : String) (v : V) (m : Entries V)
      → (k ≡ j) ⊎ ((x : V) × (lookup k m ≡ some x))
      → (x : V) × (lookup k (insert j v m) ≡ some x)
  insert_there j k v m (inl same) = (
    v,
    subst (λ (s : String). lookup s (insert j v m) ≡ some v) (sym same) (lookup-insert_self j v m),
  )
  insert_there j k v m (inr (x, found)) = elim (Bool-cases (j == k)) [
    | inl here ↦ (v, ground (arith, lookup-insert j k v m))
    | inr other ↦ (x, ground (arith, lookup-insert j k v m))
  ]

module _ (tools : Tools) where
  -- Every parent of every child is a job.
  abbrev pub ParentsAreJobs : Adag → Type 0
  ParentsAreJobs adag =
      (child : Child)
      → In child adag.childs
      → (ref : String) → In ref child.parents
      → In ref adag.jobs

  -- The lists of the map have only lower-cased references, which stand in `P` to the map's key.
  abbrev pub Named : (String → String → Type 0) → Entries (List String) → Type 0
  Named P m =
      (id : String) (refs : List String)
      → lookup id m ≡ some refs
      → (d : String) → In d refs
      → (ref : String) × P id ref × (d ≡ tools.to_lower ref)

  lower_all-In :
      (refs : List String) (d : String)
      → In d (lower_all tools refs)
      → (ref : String) × In ref refs × (d ≡ tools.to_lower ref)
  unfolding lower_all
  lower_all-In [] d i = absurd i
  lower_all-In (r ∷ refs) d (inl e) = (r, inl refl, e)
  lower_all-In (r ∷ refs) d (inr i) =
      let (ref, there, e) = lower_all-In refs d i in (ref, inr there, e)

  pub child_map-Named :
      (P : String → String → Type 0) (childs : List Child) (m : Entries (List String))
      → ((child : Child)
          → In child childs
          → (ref : String) → In ref child.parents
          → P child.ref ref)
      → Named P m
      → Named P (child_map tools childs m)
  unfolding child_map
  child_map-Named P [] m parents h = h
  child_map-Named P (child ∷ childs) m parents h =
      child_map-Named P childs (insert child.ref (lower_all tools child.parents) m)
        (λ c i. parents c (inr i))
        (λ id refs found d i.
          elim (insert_cases child.ref id (lower_all tools child.parents) refs m found) [
            | inr old ↦ h id refs old d i
            | inl (key, new) ↦
                let (ref, there, e) =
                  lower_all-In child.parents d (subst (λ (l : List String). In d l) (sym new) i) in
                (ref, subst (λ (x : String). P x ref) key (parents child (inl refl) ref there), e)
          ])

  -- The keys of the steps: the lower-cased identifiers.
  keys-add_steps :
      (i : ℕ) (scheduling : Bool) (m : Entries (List String)) (ids : List String)
      (steps : Entries WorkflowStep) (id : String)
      → (In id ids) ⊎ ((step : WorkflowStep) × (lookup (tools.to_lower id) steps ≡ some step))
      → (step : WorkflowStep) × (lookup
            (tools.to_lower id)
            (add_steps tools i scheduling m ids steps)
          ≡ some step)
  unfolding add_steps
  keys-add_steps i scheduling m [] steps id (inl none_in) = absurd none_in
  keys-add_steps i scheduling m [] steps id (inr found) = found
  keys-add_steps i scheduling m (j ∷ ids) steps id h =
      let step = new_step tools (tools.load i) j (dependencies_of tools j m) scheduling in
      keys-add_steps (suc i) scheduling m ids (insert (tools.to_lower j) step steps) id (elim h [
        | inl (inl same) ↦ inr (
            insert_there (tools.to_lower j) (tools.to_lower id) step steps
              (inl (ap tools.to_lower same)))
        | inl (inr later) ↦ inl later
        | inr found ↦
            inr (insert_there (tools.to_lower j) (tools.to_lower id) step steps (inr found))
      ])

  -- A step of a job: its key is the lower-cased identifier, its dependencies are those that the map
  -- gives to the identifier, and it has no external reference.
  pub record OfJob (m : Entries (List String)) (k : String) (step : WorkflowStep) : Type 0 where
    pub id : String
    pub key : tools.to_lower id ≡ k
    pub dependencies : step.dependencies ≡ dependencies_of tools id m
    pub no_reference : step.external_ref ≡ none

  pub steps-add_steps :
      (i : ℕ) (scheduling : Bool) (m : Entries (List String)) (ids : List String)
      (steps : Entries WorkflowStep) (k : String) (step : WorkflowStep)
      → lookup k (add_steps tools i scheduling m ids steps) ≡ some step
      → OfJob m k step ⊎ (lookup k steps ≡ some step)
  unfolding add_steps new_step
  steps-add_steps i scheduling m [] steps k step found = inr found
  steps-add_steps i scheduling m (j ∷ ids) steps k step found =
      let new = new_step tools (tools.load i) j (dependencies_of tools j m) scheduling in
      elim (steps-add_steps (suc i) scheduling m ids (insert (tools.to_lower j) new steps) k step
        found) [
          | inl of_job ↦ inl of_job
          | inr held ↦ elim (insert_cases (tools.to_lower j) k new step steps held) [
            | inl (key, same) ↦ inl (record {
              id = j;
              key = key;
              dependencies = ap (λ (s : WorkflowStep). s.dependencies) (sym same);
              no_reference = ap (λ (s : WorkflowStep). s.external_ref) (sym same);
            })
            | inr old ↦ inr old
          ]
        ]

  -- A dependency that the map gives to an identifier is a lower-cased reference.
  pub dependencies-Named :
      (P : String → String → Type 0) (m : Entries (List String)) (id d : String)
      → Named P m
      → In d (dependencies_of tools id m)
      → (ref : String) × P id ref × (d ≡ tools.to_lower ref)
  dependencies-Named P m id d h i =
      let held = λ (o : Option (List String)). In d (elim o [ none ↦ [] | some refs ↦ refs ]) in
      elim (Option-cases (lookup id m)) [
        | inl absent ↦ absurd (subst held absent i)
        | inr (refs, found) ↦ h id refs found d (subst held found i)
      ]

  -- Every step of a converted workflow is the step of a job.
  pub convert-OfJob :
      (adag : Adag) (scheduling : Bool) (name k : String) (step : WorkflowStep)
      → lookup k (entries (convert tools adag scheduling name).spec.steps) ≡ some step
      → OfJob (child_map tools adag.childs []) k step
  unfolding convert lookup
  convert-OfJob adag scheduling name k step found =
      elim (steps-add_steps 0 scheduling (child_map tools adag.childs []) adag.jobs [] k step
        found) [ inl of_job ↦ of_job | inr none_there ↦ cc none_there ]

  -- A dependency of a step of a converted workflow is the reference of a parent of its child.
  pub convert-Named :
      (P : String → String → Type 0) (adag : Adag)
      → ((child : Child)
          → In child adag.childs
          → (ref : String) → In ref child.parents
          → P child.ref ref)
      → Named P (child_map tools adag.childs [])
  unfolding lookup
  convert-Named P adag parents = child_map-Named P adag.childs [] parents (λ j refs none_there. cc)

  -- Where every parent of a child is a job, every dependency of a step of the converted workflow is a
  -- step of it.
  pub convert-IsClosed :
      (adag : Adag) (scheduling : Bool) (name : String)
      → ParentsAreJobs adag
      → IsClosed (entries (convert tools adag scheduling name).spec.steps)
  unfolding convert
  convert-IsClosed adag scheduling name parents k step found d i =
      let m = child_map tools adag.childs [] in
      let of_job = convert-OfJob adag scheduling name k step found in
      let (ref, job, same) =
        dependencies-Named (λ child ref. In ref adag.jobs) m of_job.id d
          (convert-Named (λ child ref. In ref adag.jobs) adag parents)
          (subst (λ (l : List String). In d l) of_job.dependencies i) in
      let (held, there) = keys-add_steps 0 scheduling m adag.jobs [] ref (inl job) in
      subst (λ (x : String). In x (keys (add_steps tools 0 scheduling m adag.jobs []))) (sym same)
        (In-keys (tools.to_lower ref) _ there)
