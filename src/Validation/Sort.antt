-- ===== src/Validation/Sort.antt =====
-- `topologicalSort` of pkg/validation/validation.go. The closure `visit` and the variables that it
-- captures are a function over a record of those variables. The recursion of `visit` takes fuel: one
-- more than the number of steps is enough (`Total`).
pub mod Rule
pub mod Free
pub mod Order
pub mod Total
pub mod Acyclic
pub mod Cycle
pub mod Keys
pub mod Correct
use kubernetes_workflow.Base.{
  ℕ, zero, suc, String, List, [], ◌∷◌, ◌++◌, Bool, true, false, ◌==◌, if◌then◌else◌, some, none,
  length, replicate, member,
}
use kubernetes_workflow.GoMap.{lookup, keys}
use kubernetes_workflow.Api.Types.{WorkflowStep}
use kubernetes_workflow.Validation.Field.{
  FieldPath, FieldError, not_found, forbidden, detected_cycle,
}

-- The captured variables. The maps `temporary` and `permanent` hold only the value true, so they are
-- the lists of their keys, the last written first.
pub record SortState : Type 0 where
  pub sorted : List String
  pub temporary : List String
  pub permanent : List String
  pub cycle : List String
  pub is_cyclic : Bool
  pub cycle_start : String

pub data Visit (A : Type 0) : Type 0 where
  returned : A → Visit A
  failed : FieldError → Visit A
  out_of_fuel : Visit A

abbrev pub Steps : Type 0
Steps = List (String × WorkflowStep)

-- `delete(temporary, n)`.
unfoldable pub remove : String → List String → List String
remove n [] = []
remove n (x ∷ xs) = if n == x then remove n xs else x ∷ remove n xs

-- The block under `if isCyclic`: the step joins the cycle until the cycle's start is met.
unfoldable pub unwind : String → SortState → SortState
unwind n s = if s.cycle_start == "" then s else (record s {
  cycle = s.cycle ++ n ∷ [];
  cycle_start = if n == s.cycle_start then "" else s.cycle_start;
})

-- The statements of `visit` behind its loop.
unfoldable pub finish : String → SortState → SortState
finish n s = record s {
  temporary = remove n s.temporary;
  permanent = n ∷ s.permanent;
  sorted = s.sorted ++ n ∷ [];
}

-- The loop of `visit` over the dependencies of `n`, and what follows it.
unfoldable pub visit_deps :
    (String → SortState → Visit SortState) → String → List String → SortState → Visit SortState
visit_deps visit n [] s = returned (finish n s)
visit_deps visit n (m ∷ ms) s = elim (visit m s) [
  | failed e ↦ failed e
  | out_of_fuel ↦ out_of_fuel
  | returned s' ↦
      let rest = visit_deps visit n ms s' in if s'.is_cyclic then returned (unwind n s') else rest
]

abbrev pub blanks : Steps → List String
blanks steps = replicate (length (keys steps)) ""

-- The state before the first visit. `make([]string, len(steps))` makes that many empty texts.
abbrev pub start : Steps → SortState
start steps = record {
  sorted = blanks steps;
  temporary = [];
  permanent = [];
  cycle = [];
  is_cyclic = false;
  cycle_start = "";
}

abbrev pub enough : Steps → ℕ
enough steps = suc (length (keys steps))

abbrev pub sorted_of : Visit SortState → Visit (List String)
sorted_of (returned s) = returned s.sorted
sorted_of (failed e) = failed e
sorted_of out_of_fuel = out_of_fuel

module _ (steps : Steps) (path : FieldPath) where
  unfoldable pub visit : ℕ → String → SortState → Visit SortState
  visit zero n s = out_of_fuel
  visit (suc fuel) n s = elim (lookup n steps) [
    | none ↦ failed (not_found path n)
    | some step ↦
        if member n s.temporary
        then returned (record s { is_cyclic = true; cycle_start = n })
        else (if member n s.permanent
            then returned s
            else visit_deps (visit fuel) n step.dependencies
                (record s { temporary = n ∷ s.temporary }))
  ]

  -- The loop over the sorted keys.
  unfoldable pub visit_keys : ℕ → List String → SortState → Visit SortState
  visit_keys fuel [] s = returned s
  visit_keys fuel (k ∷ ks) s =
      let skipped = visit_keys fuel ks s in
      if member k s.permanent then skipped else (elim (visit fuel k s) [
        | failed e ↦ failed e
        | out_of_fuel ↦ out_of_fuel
        | returned s' ↦
            let rest = visit_keys fuel ks s' in
            if s'.is_cyclic then failed (forbidden path (detected_cycle s'.cycle)) else rest
      ])

  -- `sort.Strings` is a parameter.
  unfoldable pub topological_sort : (List String → List String) → Visit (List String)
  topological_sort sort_strings =
      sorted_of (visit_keys (enough steps) (sort_strings (keys steps)) (start steps))
