-- ===== src/Validation/Sort/Order.antt =====
-- What it means that steps are sorted by their dependencies, and the invariant of the sort.
use kubernetes_workflow.Base.{
  String, List, [], ◌∷◌, ◌++◌, false, member, In, ◌≡◌, ◌⊎◌, some, reverse,
}
use kubernetes_workflow.GoMap.{lookup, keys}
use kubernetes_workflow.Api.Types.{WorkflowStep}
use kubernetes_workflow.Validation.Sort.{SortState, Steps, blanks}

-- Every dependency of `n`, if `n` is a step, stands in the list.
abbrev pub DependsWithin : Steps → List String → String → Type 0
DependsWithin steps done n =
    (step : WorkflowStep)
    → lookup n steps ≡ some step
    → (m : String) → In m step.dependencies
    → In m done

-- From the back to the front every name is that of a step, stands in the list once, and comes after
-- all of its dependencies.
abbrev pub IsOrdered : Steps → List String → Type 0
IsOrdered steps [] = Unit
IsOrdered steps (n ∷ rest) =
    In n (keys steps) × (member n rest ≡ false) × DependsWithin steps rest n × IsOrdered steps rest

pub record Inv (steps : Steps) (s : SortState) : Type 0 where
  pub ordered : IsOrdered steps s.permanent
  pub aligned : s.sorted ≡ blanks steps ++ reverse s.permanent

-- `n` is a step, or a dependency of one.
abbrev pub Wanted : Steps → String → Type 0
Wanted steps n =
    In n (keys steps)
    ⊎ ((k : String) × (step : WorkflowStep) × (lookup k steps ≡ some step) × In n step.dependencies)
