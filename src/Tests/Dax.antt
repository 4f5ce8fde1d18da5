-- ===== src/Tests/Dax.antt =====
-- The conversion of a small graph.
use kubernetes_workflow.Samples.{sample_rules, keeps_given}
use kubernetes_workflow.Validation.Workflow.{validate_workflow_steps}
use kubernetes_workflow.Dax.Valid.{Falls, convert_validates}
use kubernetes_workflow.Base.{
  ℕ, ◌<◌, if◌then◌else◌, ◌==◌, ◌≡◌, sym, arith, String, [], ◌∷◌, true, inl, inr, In, subst,
}
use kubernetes_workflow.GoMap.{entries}
use kubernetes_workflow.Validation.Sort.Correct.{IsClosed}
use kubernetes_workflow.Dax.{Child, Adag, Tools, convert}
use kubernetes_workflow.Dax.Laws.{convert-IsClosed}

abbrev plain_tools : Tools
plain_tools = record {
  to_lower = λ text. if text == "A" then "a" else (if text == "B" then "b" else text);
  itoa = λ n. "20";
  resource_cpu = "cpu";
  load = λ i. 20;
}

-- `B` is a child of `A`.
abbrev pair : Adag
pair = record { jobs = "A" ∷ "B" ∷ []; childs = (record { ref = "B"; parents = "A" ∷ [] }) ∷ [] }

parents_of_b : (c : Child) → In c pair.childs → (ref : String) → In ref c.parents → In ref pair.jobs
parents_of_b c (inl is_b) ref m = elim (subst (λ (x : Child). In ref x.parents) is_b m) [
  | inl is_a ↦ inl is_a
  | inr none_there ↦ absurd none_there
]
parents_of_b c (inr none_there) ref m = absurd none_there

convert-IsClosed_example : IsClosed (entries (convert plain_tools pair true "wf").spec.steps)
convert-IsClosed_example = convert-IsClosed plain_tools pair true "wf" parents_of_b

-- `b` is above `a`.
abbrev pair_rank : String → ℕ
pair_rank id = if id == "b" then 1 else 0

pair-Falls : Falls plain_tools pair pair_rank
pair-Falls c (inl is_b) ref m =
    subst
      (λ (x : Child).
        (y : String)
        → In y x.parents
        → pair_rank (plain_tools.to_lower y) < pair_rank (plain_tools.to_lower x.ref))
      (sym is_b)
      (λ y i. elim i [
        | inl is_a ↦
            subst (λ (t : String). pair_rank (plain_tools.to_lower t) < pair_rank "b") (sym is_a)
              (omega arith)
        | inr none_there ↦ absurd none_there
      ])
      ref m
pair-Falls c (inr none_there) ref m = absurd none_there

convert_validates_example :
    validate_workflow_steps sample_rules (convert plain_tools pair true "wf").spec.steps [] ≡ []
convert_validates_example =
    convert_validates plain_tools sample_rules [] pair true "wf" pair_rank keeps_given parents_of_b
      pair-Falls
