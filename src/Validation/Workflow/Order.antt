-- ===== src/Validation/Workflow/Order.antt =====
-- The verdict on the steps of a workflow, and the order in which a range loop meets them.
use kubernetes_workflow.Base.{
  String, [], ◌∷◌, false, some, ◌≡◌, ◌↔◌, ◌==◌, sym, ◌∙◌, arith, eq_iff, eq_refl, In, inl, inr,
  Bool-cases, subst,
}
use kubernetes_workflow.Base.{member, not-In_of_member}
use kubernetes_workflow.GoMap.{made, keys, lookup}
use kubernetes_workflow.GoMap.Laws.{Distinct, In-keys, lookup_of_In}
use kubernetes_workflow.Api.Types.{WorkflowStep}
use kubernetes_workflow.Validation.Field.{Rules, FieldPath}
use kubernetes_workflow.Validation.Sort.{Steps}
use kubernetes_workflow.Validation.Sort.Correct.{KeepsElements}
use kubernetes_workflow.Validation.Workflow.{validate_workflow_steps}
use kubernetes_workflow.Validation.Workflow.Laws.{
  IsExclusive, AllExclusive, IsRunnable, validate_workflow_steps_iff,
}

-- Two lists of steps that hold the same step under each key.
abbrev pub SameSteps : Steps → Steps → Type 0
SameSteps steps steps' = (k : String) → lookup k steps ≡ lookup k steps'

AllExclusive-lookup :
    (steps : Steps) (k : String) (v : WorkflowStep)
    → AllExclusive steps
    → lookup k steps ≡ some v
    → IsExclusive (k, v)
unfolding lookup
AllExclusive-lookup [] k v h found = cc
AllExclusive-lookup ((j, x) ∷ steps) k v (one, h) found = elim (Bool-cases (j == k)) [
  | inl here ↦
      let same : x ≡ v = ground (arith, found, here) in
      subst (λ (s : WorkflowStep). IsExclusive (k, s)) same one
  | inr other ↦ AllExclusive-lookup steps k v h (ground (arith, found, other))
]

-- What is found behind an entry with a new key is found with the entry, too.
lookup-tail :
    (k : String) (v : WorkflowStep) (j : String) (x : WorkflowStep) (steps : Steps)
    → member k (keys steps) ≡ false
    → lookup j steps ≡ some x
    → lookup j ((k, v) ∷ steps) ≡ some x
unfolding lookup
lookup-tail k v j x steps new found = elim (Bool-cases (k == j)) [
  | inl same ↦ absurd (
      not-In_of_member k (keys steps) new (
        subst (λ (n : String). In n (keys steps)) (sym ((eq_iff k j).0 same))
          (In-keys j steps found)))
  | inr other ↦ simp other found
]

AllExclusive-of :
    (steps : Steps)
    → Distinct (keys steps)
    → ((k : String) (v : WorkflowStep) → lookup k steps ≡ some v → IsExclusive (k, v))
    → AllExclusive steps
unfolding lookup
AllExclusive-of [] distinct h = tt
AllExclusive-of ((k, v) ∷ steps) (new, distinct) h = (
  h k v (simp eq_refl),
  AllExclusive-of steps distinct (λ j x found. h j x (lookup-tail k v j x steps new found)),
)

module _ (steps steps' : Steps) (same : SameSteps steps steps')
    (distinct : Distinct (keys steps')) where
  IsRunnable-same : IsRunnable steps → IsRunnable steps'
  IsRunnable-same h = record {
    closed = λ k step found m there.
        let (x, held) = lookup_of_In m steps (h.closed k step (same k ∙ found) m there) in
        In-keys m steps' (sym (same m) ∙ held);
    rank = h.rank;
    ranks = λ n step found m there. h.ranks n step (same n ∙ found) m there;
    exclusive =
        AllExclusive-of steps' distinct
          (λ k v found. AllExclusive-lookup steps k v h.exclusive (same k ∙ found));
  }

-- Go leaves the order open in which a range loop meets the steps. Whether the validation finds an error
-- in them does not depend on it: the verdict is the same for any two maps with the same steps, each key
-- once. The sort of texts keeps the elements of a list.
pub validate_workflow_steps_agree :
    (rules : Rules) (steps steps' : Steps) (path : FieldPath)
    → KeepsElements rules.sort_strings
    → Distinct (keys steps)
    → Distinct (keys steps')
    → SameSteps steps steps'
    → (validate_workflow_steps rules (made steps) path ≡ [])
      ↔ (validate_workflow_steps rules (made steps') path ≡ [])
validate_workflow_steps_agree rules steps steps' path keeps distinct distinct' same =
    let here = validate_workflow_steps_iff rules keeps (made steps) path in
    let there = validate_workflow_steps_iff rules keeps (made steps') path in
    (
      λ valid. there.1 (IsRunnable-same steps steps' same distinct' (here.0 valid)),
      λ valid. here.1 (IsRunnable-same steps' steps (λ k. sym (same k)) distinct (there.0 valid)),
    )
