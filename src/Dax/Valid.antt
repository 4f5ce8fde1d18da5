-- ===== src/Dax/Valid.antt =====
-- The steps of a converted graph in the eyes of the workflow's validation.
use kubernetes_workflow.Base.{
  ℕ, suc, ◌<◌, String, List, [], ◌∷◌, Bool, none, ◌==◌, ◌≡◌, inl, inr, refl, sym, In, subst,
  Bool-cases,
}
use kubernetes_workflow.GoMap.{Entries, entries, insert}
use kubernetes_workflow.Api.Types.{WorkflowStep}
use kubernetes_workflow.Validation.Field.{Rules, FieldPath}
use kubernetes_workflow.Validation.Sort.Correct.{KeepsElements}
use kubernetes_workflow.Validation.Sort.Acyclic.{Ranks}
use kubernetes_workflow.Validation.Workflow.{validate_workflow_steps}
use kubernetes_workflow.Validation.Workflow.Laws.{AllExclusive, validate_workflow_steps_iff}
use kubernetes_workflow.Dax.{
  Child, Adag, Tools, new_step, child_map, dependencies_of, add_steps, convert,
}
use kubernetes_workflow.Dax.Laws.{
  ParentsAreJobs, dependencies-Named, convert-OfJob, convert-Named, convert-IsClosed,
}

AllExclusive-insert :
    (k : String) (step : WorkflowStep) (steps : Entries WorkflowStep)
    → step.external_ref ≡ none
    → AllExclusive steps
    → AllExclusive (insert k step steps)
unfolding insert
AllExclusive-insert k step [] own h = (inr own, tt)
AllExclusive-insert k step ((j, x) ∷ steps) own (one, h) = elim (Bool-cases (j == k)) [
  | inl same ↦ simp same (inr own, h)
  | inr other ↦ simp other (one, AllExclusive-insert k step steps own h)
]

module _ (tools : Tools) where
  add_steps-AllExclusive :
      (i : ℕ) (scheduling : Bool) (m : Entries (List String)) (ids : List String)
      (steps : Entries WorkflowStep)
      → AllExclusive steps
      → AllExclusive (add_steps tools i scheduling m ids steps)
  unfolding add_steps new_step
  add_steps-AllExclusive i scheduling m [] steps h = h
  add_steps-AllExclusive i scheduling m (id ∷ ids) steps h =
      add_steps-AllExclusive (suc i) scheduling m ids _ (
        AllExclusive-insert (tools.to_lower id)
          (new_step tools (tools.load i) id (dependencies_of tools id m) scheduling) steps refl h)

  -- A rank of the lower-cased identifiers falls from child to parent, so that no cycle goes through
  -- them. A graph without a cycle may have one through them: lower-casing merges identifiers.
  abbrev pub Falls : Adag → (String → ℕ) → Type 0
  Falls adag rank =
      (child : Child)
      → In child adag.childs
      → (ref : String) → In ref child.parents
      → rank (tools.to_lower ref) < rank (tools.to_lower child.ref)

  convert-Ranks :
      (adag : Adag) (scheduling : Bool) (name : String) (rank : String → ℕ)
      → Falls adag rank
      → Ranks (entries (convert tools adag scheduling name).spec.steps) rank
  convert-Ranks adag scheduling name rank falls k step found d i =
      let Below = λ (child : String) (ref : String).
        rank (tools.to_lower ref) < rank (tools.to_lower child) in
      let of_job = convert-OfJob tools adag scheduling name k step found in
      let (ref, below, same) =
        dependencies-Named tools Below (child_map tools adag.childs []) of_job.id d
          (convert-Named tools Below adag falls)
          (subst (λ (l : List String). In d l) of_job.dependencies i) in
      subst (λ (x : String). rank x < rank k) (sym same)
        (subst (λ (x : String). rank (tools.to_lower ref) < rank x) of_job.key below)

  -- A graph whose parents are jobs, and whose identifiers, once they are lower-cased, have a rank that
  -- falls from a child to its parents, is converted to a workflow in whose steps the validation finds
  -- no error. The sort of texts keeps the elements of a list.
  pub convert_validates :
      (rules : Rules) (path : FieldPath) (adag : Adag) (scheduling : Bool) (name : String)
      (rank : String → ℕ)
      → KeepsElements rules.sort_strings
      → ParentsAreJobs tools adag
      → Falls adag rank
      → validate_workflow_steps rules (convert tools adag scheduling name).spec.steps path ≡ []
  unfolding convert
  convert_validates rules path adag scheduling name rank keeps parents falls =
      (validate_workflow_steps_iff rules keeps (convert tools adag scheduling name).spec.steps
          path).1
        (record {
          closed = convert-IsClosed tools adag scheduling name parents;
          rank = rank;
          ranks = convert-Ranks adag scheduling name rank falls;
          exclusive =
              add_steps-AllExclusive 0 scheduling (child_map tools adag.childs []) adag.jobs [] tt;
        })
