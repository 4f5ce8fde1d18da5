-- ===== src/Validation/Update/Laws.antt =====
-- An update that is allowed leaves the steps that run or have completed as they are.
use kubernetes_workflow.Base.{
  String, List, [], ◌∷◌, ◌++◌, true, false, some, none, if◌then◌else◌, member, member_iff, In, ◌≡◌,
  ◌≢◌, ◌⊎◌, inl, inr, refl, ap, sym, subst, arith, eq_iff, ◌==◌, if_ind, Bool-cases, Option-cases,
}
use mathlib.Core.Option.{some-injective}
use kubernetes_workflow.GoMap.{GoMap, nil_map, made, lookup, entries, get, is_nil, keys}
use kubernetes_workflow.GoMap.Laws.{lookup_of_In}
use kubernetes_workflow.Api.Types.{Workflow, WorkflowSpec, WorkflowStep, WorkflowStepStatus}
use kubernetes_workflow.Api.Laws.{Completed}
use kubernetes_workflow.Validation.Field.{FieldPath, Rules}
use kubernetes_workflow.Validation.Sort.{Steps}
use kubernetes_workflow.Validation.Sort.Correct.{KeepsElements}
use kubernetes_workflow.Validation.Workflow.{child, validate_workflow_spec}
use kubernetes_workflow.Validation.Workflow.Laws.{append-eq-nil}
use kubernetes_workflow.Validation.Update.{
  StepSets, collect, running_and_completed_steps, all_completed, difference, removed_error,
  change_errors, modified_errors, step_or_zero, validate_workflow_spec_update,
  validate_workflow_update, validate_workflow_status_update,
}

-- The step runs or has completed.
abbrev IsActive : StepSets → String → Type 0
IsActive sets k = (member k sets.running ≡ true) ⊎ (member k sets.completed ≡ true)

collect-IsActive :
    (statuses : GoMap WorkflowStepStatus) (steps : Steps) (k : String) (st : WorkflowStepStatus)
    → In k (keys steps)
    → get k statuses ≡ some st
    → IsActive (collect statuses steps) k
unfolding collect member
collect-IsActive statuses [] k st i h = absurd i
collect-IsActive statuses ((j, v) ∷ steps) k st (inl e) h =
    ground (arith, eq_iff k j, ap (λ (x : String). get x statuses) e)
collect-IsActive statuses ((j, v) ∷ steps) k st (inr i) h =
    ground (arith, collect-IsActive statuses steps k st i h)

collect-completed :
    (statuses : GoMap WorkflowStepStatus) (steps : Steps) (k : String)
    → In k (keys steps)
    → Completed statuses k
    → member k (collect statuses steps).completed ≡ true
unfolding collect member
collect-completed statuses [] k i h = absurd i
collect-completed statuses ((j, v) ∷ steps) k (inl e) (st, h, c) =
    ground (arith, eq_iff k j, ap (λ (x : String). get x statuses) e)
collect-completed statuses ((j, v) ∷ steps) k (inr i) (st, h, c) =
    ground (arith, collect-completed statuses steps k i (st, h, c))

get-nil : {V : Type 0} (k : String) (m : GoMap V) → is_nil m ≡ true → get k m ≡ none
unfolding lookup
get-nil k nil_map h = refl
get-nil k (made m) h = cc

all_completed_of :
    (completed ks : List String)
    → ((k : String) → In k ks → member k completed ≡ true)
    → all_completed completed ks ≡ true
unfolding all_completed
all_completed_of completed [] h = refl
all_completed_of completed (k ∷ ks) h =
    rw (h k (inl refl)) (all_completed_of completed ks (λ x i. h x (inr i)))

completed_of_status :
    (wf : Workflow) (k : String)
    → In k (keys (entries wf.spec.steps))
    → Completed wf.status.statuses k
    → member k (running_and_completed_steps wf).completed ≡ true
unfolding running_and_completed_steps
completed_of_status wf k i (st, h, c) =
    if_ind (λ (sets : StepSets). member k sets.completed ≡ true) (is_nil wf.status.statuses)
      (λ nil. cc (get-nil k wf.status.statuses nil))
      (λ _. collect-completed wf.status.statuses (entries wf.spec.steps) k i (st, h, c))

removed_error-none :
    (sets : StepSets) (removed : List String) (k : String)
    → removed_error sets removed ≡ none
    → In k removed
    → ¬ IsActive sets k
unfolding removed_error
removed_error-none sets [] k h i = absurd i
removed_error-none sets (s ∷ removed) k h (inl e) = ground (
  arith,
  ap (λ (x : String). member x sets.running) e,
  ap (λ (x : String). member x sets.completed) e,
)
removed_error-none sets (s ∷ removed) k h (inr i) =
    ground (arith, removed_error-none sets removed k)

In-difference :
    (old new : List String) (k : String)
    → In k old
    → member k new ≡ false
    → In k (difference old new)
unfolding difference
In-difference [] new k i h = i
In-difference (j ∷ old) new k (inl e) h = ground (arith, ap (λ (x : String). member x new) e)
In-difference (j ∷ old) new k (inr i) h = ground (arith, In-difference old new k i h)

change_errors-ne-nil : (sets : StepSets) (k : String) → IsActive sets k → change_errors sets k ≢ []
unfolding change_errors
change_errors-ne-nil sets k active e = ground arith

modified_errors-nil :
    (rules : Rules) (sets : StepSets) (old : GoMap WorkflowStep) (steps : Steps) (k : String)
    (v : WorkflowStep)
    → modified_errors rules sets old steps ≡ []
    → lookup k steps ≡ some v
    → IsActive sets k
    → rules.deep_equal v (step_or_zero k old) ≡ true
unfolding modified_errors lookup
modified_errors-nil rules sets old [] k v h found active = cc
modified_errors-nil rules sets old ((j, w) ∷ steps) k v h found active =
    let (first, rest) =
      (append-eq-nil (if rules.deep_equal w (step_or_zero j old) then [] else change_errors sets j)
          (modified_errors rules sets old steps)).0
        h in
    elim (Bool-cases (j == k)) [
      | inr other ↦
          modified_errors-nil rules sets old steps k v rest (rw (other, lookup) at found) active
      | inl same ↦
          let at_j : rules.deep_equal w (step_or_zero j old) ≡ true =
            elim (Bool-cases (rules.deep_equal w (step_or_zero j old))) [
              | inl equal ↦ equal
              | inr changed ↦ absurd (
                  change_errors-ne-nil sets j
                    (subst (IsActive sets) (sym ((eq_iff j k).0 same)) active)
                    (rw changed at first))
            ] in
          let is_w : w ≡ v = some-injective _ _ (rw (same, lookup) at found) in
          subst (λ x. rules.deep_equal v (step_or_zero x old) ≡ true) ((eq_iff j k).0 same)
            (subst (λ x. rules.deep_equal x (step_or_zero j old) ≡ true) is_w at_j)
    ]

-- What an allowed update keeps of a step that runs or has completed: it is in both specifications,
-- and deeply equal there.
pub record Keeps (rules : Rules) (new old : GoMap WorkflowStep) (k : String) : Type 0 where
  pub before : WorkflowStep
  pub after : WorkflowStep
  pub was : get k old ≡ some before
  pub is : get k new ≡ some after
  pub equal : rules.deep_equal after before ≡ true

module _ (rules : Rules) (keeps : KeepsElements rules.sort_strings) where
  spec_update-Keeps :
      (spec old : WorkflowSpec) (sets : StepSets) (path : FieldPath) (k : String)
      → validate_workflow_spec_update rules spec old sets path ≡ []
      → In k (keys (entries old.steps))
      → IsActive sets k
      → Keeps rules spec.steps old.steps k
  unfolding validate_workflow_spec_update
  spec_update-Keeps spec old sets path k h i active =
      let new_keys = keys (entries spec.steps) in
      let gone = difference (keys (entries old.steps)) new_keys in
      let errors =
        validate_workflow_spec rules spec path
        ++ rules.validate_immutable_field spec.jobs_selector old.jobs_selector
            (child path "jobsSelector") in
      elim (Option-cases (removed_error sets (rules.sort_strings gone))) [
        | inr (e, eq) ↦
            cc ((append-eq-nil errors (e ∷ [])).0 (rw (eq, validate_workflow_spec_update) at h)).1
        | inl kept ↦
            let unchanged =
              ((append-eq-nil errors (modified_errors rules sets old.steps (entries spec.steps))).0
                (rw (kept, validate_workflow_spec_update) at h)).1 in
            let there : In k new_keys = elim (Bool-cases (member k new_keys)) [
              | inl present ↦ (member_iff k new_keys).0 present
              | inr absent ↦ absurd (
                  removed_error-none sets (rules.sort_strings gone) k kept
                    ((keeps gone k).1
                      (In-difference (keys (entries old.steps)) new_keys k i absent))
                    active)
            ] in
            let (after, is) = lookup_of_In k (entries spec.steps) there in
            let (before, was) = lookup_of_In k (entries old.steps) i in
            record {
              before = before;
              after = after;
              was = was;
              is = is;
              equal =
                  rw (was, step_or_zero) at
                    (modified_errors-nil rules sets old.steps (entries spec.steps) k after unchanged
                      is active);
            }
      ]

  IsActive-of_status :
      (wf : Workflow) (k : String) (st : WorkflowStepStatus)
      → In k (keys (entries wf.spec.steps))
      → get k wf.status.statuses ≡ some st
      → IsActive (running_and_completed_steps wf) k
  unfolding running_and_completed_steps
  IsActive-of_status wf k st i h =
      if_ind (λ sets. IsActive sets k) (is_nil wf.status.statuses)
        (λ nil. cc (get-nil k wf.status.statuses nil))
        (λ _. collect-IsActive wf.status.statuses (entries wf.spec.steps) k st i h)

  -- An update without errors keeps every step that runs or has completed: a step of the old
  -- specification with a status.
  pub validate_workflow_update-Keeps :
      (wf old : Workflow) (k : String) (st : WorkflowStepStatus)
      → validate_workflow_update rules wf old ≡ []
      → In k (keys (entries old.spec.steps))
      → get k old.status.statuses ≡ some st
      → Keeps rules wf.spec.steps old.spec.steps k
  unfolding validate_workflow_update
  validate_workflow_update-Keeps wf old k st h i status =
      let sets = running_and_completed_steps old in
      let errors = rules.validate_object_meta_update wf.meta old.meta ("metadata" ∷ []) in
      let spec_errors = validate_workflow_spec_update rules wf.spec old.spec sets ("spec" ∷ []) in
      let status_errors = validate_workflow_status_update wf.status old.status ("status" ∷ []) in
      elim (Bool-cases (all_completed sets.completed (keys (entries old.spec.steps)))) [
        | inl done ↦ cc ((append-eq-nil errors _).0 (rw done at h)).1
        | inr going ↦
            let rest =
              ((append-eq-nil errors (spec_errors ++ status_errors)).0 (rw going at h)).1 in
            spec_update-Keeps wf.spec old.spec sets ("spec" ∷ []) k
              ((append-eq-nil spec_errors status_errors).0 rest).0 i
              (IsActive-of_status old k st i status)
      ]

  -- A workflow whose steps have all completed cannot be updated.
  pub validate_workflow_update-Completed :
      (wf old : Workflow)
      → ((k : String) → In k (keys (entries old.spec.steps)) → Completed old.status.statuses k)
      → validate_workflow_update rules wf old ≢ []
  unfolding validate_workflow_update
  validate_workflow_update-Completed wf old all e =
      let sets = running_and_completed_steps old in
      let done =
        all_completed_of sets.completed (keys (entries old.spec.steps))
          (λ k i. completed_of_status old k i (all k i)) in
      cc
        ((append-eq-nil (rules.validate_object_meta_update wf.meta old.meta ("metadata" ∷ [])) _).0
          (rw done at e)).1
