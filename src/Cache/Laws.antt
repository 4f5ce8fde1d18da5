-- ===== src/Cache/Laws.antt =====
-- What the lookups find.
use kubernetes_workflow.Base.{
  String, List, [], ◌∷◌, Bool, true, false, ◌&&◌, ◌||◌, not, Option, some, none, ◌==◌,
  if◌then◌else◌, ◌≡◌, ◌↔◌, ◌⊎◌, inl, inr, refl, sym, subst, arith, eq_iff, In, if_ind,
}
use kubernetes_workflow.Api.Meta.{Job, namespace_all}
use kubernetes_workflow.Api.Types.{Workflow}
use kubernetes_workflow.World.{Cluster, Result, ok, panicked}
use kubernetes_workflow.Cache.{map_result, workflows_matching, list_jobs}

-- One round of the loop over the workflows, with the rest of the loop's result.
matching_result :
    (wns jns : String) (answer : Option Bool) (x : Workflow) (later : Result (List Workflow))
    (l : List Workflow)
    → (if not (wns == jns) then later else (elim answer [
      | none ↦ panicked
      | some true ↦ map_result (λ ws. x ∷ ws) later
      | some false ↦ later
    ]))
      ≡ ok l
    → (rest : List Workflow) × (later ≡ ok rest)
      × (((wns ≡ jns) × (answer ≡ some true)) × (l ≡ x ∷ rest)
          ⊎ (¬ ((wns ≡ jns) × (answer ≡ some true))) × (l ≡ rest))
matching_result wns jns answer x panicked l e = ground (arith, eq_iff wns jns)
matching_result wns jns answer x (ok rest) l e = (rest, refl, ground (arith, eq_iff wns jns))

module _ (cluster : Cluster) where
  -- The job is in the namespace, or all namespaces are meant, and the selector matches it.
  abbrev pub IsListed : String → List (String × String) → Job → Type 0
  IsListed namespace set job =
      ((namespace ≡ namespace_all) ⊎ (namespace ≡ job.meta.namespace))
      × (cluster.set_matches set job.meta.labels ≡ true)

  abbrev is_listed : String → List (String × String) → Job → Bool
  is_listed namespace set job =
      (namespace == namespace_all || namespace == job.meta.namespace)
      && cluster.set_matches set job.meta.labels

  IsListed-iff :
      (namespace : String) (set : List (String × String)) (job : Job)
      → (is_listed namespace set job ≡ true) ↔ IsListed namespace set job
  IsListed-iff namespace set job =
      ground (arith, eq_iff namespace namespace_all, eq_iff namespace job.meta.namespace)

  -- The jobs listed are those of the store in the namespace that the selector matches.
  pub list_jobs_iff :
      (namespace : String) (set : List (String × String)) (store : List Job) (job : Job)
      → In job (list_jobs cluster namespace set store) ↔ (In job store × IsListed namespace set job)
  unfolding list_jobs
  list_jobs_iff namespace set [] job = ((λ m. absurd m), (λ h. absurd h.0))
  list_jobs_iff namespace set (j ∷ store) job =
      let ih = list_jobs_iff namespace set store job in
      let test = IsListed-iff namespace set j in
      if_ind (λ l. In job l ↔ (((job ≡ j) ⊎ In job store) × IsListed namespace set job))
        (is_listed namespace set j)
        (λ here. (
          λ m. elim m [
            | inl e ↦ (inl e, subst (IsListed namespace set) (sym e) (test.0 here))
            | inr r ↦ (inr (ih.0 r).0, (ih.0 r).1)
          ],
          λ h. elim h.0 [ inl e ↦ inl e | inr r ↦ inr (ih.1 (r, h.1)) ],
        ))
        λ other. (
          λ m. (inr (ih.0 m).0, (ih.0 m).1),
          λ h. elim h.0 [
            | inl e ↦ cc (test.1 (subst (IsListed namespace set) e h.1))
            | inr r ↦ ih.1 (r, h.1)
          ],
        )

  -- The workflow manages the job: it is in the job's namespace and its selector matches the job.
  abbrev pub Manages : Job → Workflow → Type 0
  Manages job wf =
      (wf.meta.namespace ≡ job.meta.namespace)
      × (cluster.selector_matches wf.spec.jobs_selector job.meta.labels ≡ some true)

  matching_nil : (job : Job) (l : List Workflow) → workflows_matching cluster job [] ≡ ok l → l ≡ []
  unfolding workflows_matching
  matching_nil job l e = cc

  matching_cons :
      (job : Job) (x : Workflow) (store l : List Workflow)
      → workflows_matching cluster job (x ∷ store) ≡ ok l
      → (rest : List Workflow) × (workflows_matching cluster job store ≡ ok rest)
        × (Manages job x × (l ≡ x ∷ rest) ⊎ (¬ Manages job x) × (l ≡ rest))
  unfolding workflows_matching
  matching_cons job x store l e =
      matching_result x.meta.namespace job.meta.namespace
        (cluster.selector_matches x.spec.jobs_selector job.meta.labels) x
        (workflows_matching cluster job store) l e

  -- Without a panic the workflows found are those of the store that manage the job.
  pub workflows_matching_iff :
      (job : Job) (store l : List Workflow) (wf : Workflow)
      → workflows_matching cluster job store ≡ ok l
      → In wf l ↔ (In wf store × Manages job wf)
  workflows_matching_iff job [] l wf e =
      (λ m. absurd (subst (In wf) (matching_nil job l e) m), λ h. absurd h.0)
  workflows_matching_iff job (x ∷ store) l wf e =
      let (rest, eq, step) = matching_cons job x store l e in
      let ih = workflows_matching_iff job store rest wf eq in
      elim step [
        | inl (manages, grown) ↦ (
          λ m. elim (subst (In wf) grown m) [
            | inl same ↦ (inl same, subst (Manages job) (sym same) manages)
            | inr r ↦ (inr (ih.0 r).0, (ih.0 r).1)
          ],
          λ h.
              subst (In wf) (sym grown)
                (elim h.0 [ inl same ↦ inl same | inr r ↦ inr (ih.1 (r, h.1)) ]),
        )
        | inr (not_managing, same_list) ↦ (
          λ m. let r = ih.0 (subst (In wf) same_list m) in (inr r.0, r.1),
          λ h. subst (In wf) (sym same_list) (elim h.0 [
            | inl same ↦ absurd (not_managing (subst (Manages job) same h.1))
            | inr r ↦ ih.1 (r, h.1)
          ]),
        )
      ]
