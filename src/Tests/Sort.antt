-- ===== src/Tests/Sort.antt =====
-- The sort of the steps at small graphs.
use kubernetes_workflow.Base.{
  ℕ, String, List, [], ◌∷◌, ◌≡◌, ◌≢◌, ◌↔◌, ◌⊎◌, inl, inr, refl, In, member,
}
use kubernetes_workflow.GoMap.{lookup, keys}
use kubernetes_workflow.Validation.Field.{forbidden, detected_cycle}
use kubernetes_workflow.Validation.Sort.{
  returned, failed, out_of_fuel, remove, unwind, finish, visit_deps, visit, visit_keys,
  topological_sort,
}
use kubernetes_workflow.Validation.Sort.Acyclic.{Ranks}
use kubernetes_workflow.Validation.Sort.Correct.{
  IsClosed, Sorted, Missing, Cyclic, topological_sort_ends, topological_sort-Sorted,
  topological_sort_accepts_iff, topological_sort_reports,
}
use kubernetes_workflow.Samples.{chain, ring, as_given, keeps_given}

-- What a run of the sort computes with.
sort_program : Unit {0}
unfolding topological_sort visit_keys visit visit_deps finish remove unwind member lookup
sort_program = tt

sort-chain : topological_sort chain [] as_given ≡ returned ("" ∷ "" ∷ "a" ∷ "b" ∷ [])
unfolding sort_program
sort-chain = refl

sort-ring :
    topological_sort ring ("steps" ∷ []) as_given
    ≡ failed (forbidden ("steps" ∷ []) (detected_cycle ("b" ∷ "a" ∷ [])))
unfolding sort_program
sort-ring = refl

topological_sort_ends_example : topological_sort ring [] as_given ≢ out_of_fuel
topological_sort_ends_example = topological_sort_ends ring [] as_given keeps_given

topological_sort-Sorted_example : Sorted chain ("" ∷ "" ∷ "a" ∷ "b" ∷ [])
topological_sort-Sorted_example =
    topological_sort-Sorted chain [] as_given keeps_given ("" ∷ "" ∷ "a" ∷ "b" ∷ []) sort-chain

topological_sort_accepts_iff_example :
    ((sorted : List String) × (topological_sort chain [] as_given ≡ returned sorted))
    ↔ (IsClosed chain × ((rank : String → ℕ) × Ranks chain rank))
topological_sort_accepts_iff_example = topological_sort_accepts_iff chain [] as_given keeps_given

ring_named : (n : String) → In n (keys ring) → n ≢ ""
ring_named n (inl e) = λ empty. cc
ring_named n (inr (inl e)) = λ empty. cc
ring_named n (inr (inr m)) = absurd m

topological_sort_reports_example :
    Missing ring ("steps" ∷ []) (forbidden ("steps" ∷ []) (detected_cycle ("b" ∷ "a" ∷ [])))
    ⊎ Cyclic ring ("steps" ∷ []) (forbidden ("steps" ∷ []) (detected_cycle ("b" ∷ "a" ∷ [])))
topological_sort_reports_example =
    topological_sort_reports ring ("steps" ∷ []) as_given keeps_given ring_named
      (forbidden ("steps" ∷ []) (detected_cycle ("b" ∷ "a" ∷ []))) sort-ring
