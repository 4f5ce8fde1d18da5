-- ===== src/Api/Laws.antt =====
-- What the methods of a workflow do.
use kubernetes_workflow.Base.{
  ℕ, String, List, [], ◌∷◌, none, some, true, ◌&&◌, ◌||◌, ◌==◌, if◌then◌else◌, ◌≡◌, refl, sym, ◌∙◌,
  ◌⊎◌, inl, inr, ◌↔◌, ◌≢◌, arith, eq_iff, In, All, subst, Bool-cases, In-append_right, Option-cases,
  ne→eq_false,
}
use kubernetes_workflow.GoMap.{GoMap, nil_map, made, get, lookup, assign, insert, insert_all}
use kubernetes_workflow.GoMap.Laws.{get-assign, lookup-insert}
use kubernetes_workflow.Api.Meta.{LabelSelector, condition_true}
use kubernetes_workflow.Api.Types.{
  Workflow, WorkflowCondition, WorkflowStepStatus, workflow_uid_label, workflow_complete,
  workflow_failed,
}
use kubernetes_workflow.Api.Methods.{
  add_labels, selector_or_new, set_uid, set_defaults, add_complete_condition, any_finished,
  is_finished, step_complete, all_complete,
}

-- A condition that ends the workflow.
abbrev pub Ends : WorkflowCondition → Type 0
Ends c = ((c.kind ≡ workflow_complete) ⊎ (c.kind ≡ workflow_failed)) × (c.status ≡ condition_true)

Ends-of_test :
    (c : WorkflowCondition)
    → ((c.kind == workflow_complete || c.kind == workflow_failed) && c.status == condition_true)
      ≡ true
    → Ends c
Ends-of_test c h = ground (
  arith,
  eq_iff c.kind workflow_complete,
  eq_iff c.kind workflow_failed,
  eq_iff c.status condition_true,
)

test_of_Ends :
    (c : WorkflowCondition)
    → Ends c
    → ((c.kind == workflow_complete || c.kind == workflow_failed) && c.status == condition_true)
      ≡ true
test_of_Ends c h = ground (
  arith,
  eq_iff c.kind workflow_complete,
  eq_iff c.kind workflow_failed,
  eq_iff c.status condition_true,
)

any_finished_sound :
    (cs : List WorkflowCondition)
    → any_finished cs ≡ true
    → (c : WorkflowCondition) × In c cs × Ends c
unfolding any_finished
any_finished_sound [] h = absurd (cc)
any_finished_sound (c ∷ cs) h =
    elim (Bool-cases
      ((c.kind == workflow_complete || c.kind == workflow_failed) && c.status == condition_true)) [
        | inl now ↦ (c, inl refl, Ends-of_test c now)
        | inr n ↦ let (d, m, e) = any_finished_sound cs (rw (n, any_finished) at h) in (d, inr m, e)
      ]

any_finished_complete :
    (cs : List WorkflowCondition) (c : WorkflowCondition)
    → In c cs
    → Ends c
    → any_finished cs ≡ true
unfolding any_finished
any_finished_complete [] c m e = absurd m
any_finished_complete (d ∷ cs) c (inl same) e = rw (test_of_Ends d (subst Ends same e))
any_finished_complete (d ∷ cs) c (inr m) e = ground (arith, any_finished_complete cs c m e)

-- A workflow is finished exactly when one of its conditions says Complete or Failed with the status
-- True.
pub is_finished_iff :
    (wf : Workflow)
    → (is_finished wf ≡ true) ↔ ((c : WorkflowCondition) × In c wf.status.conditions × Ends c)
unfolding is_finished
is_finished_iff wf = (
  any_finished_sound wf.status.conditions,
  λ (c, m, e). any_finished_complete wf.status.conditions c m e,
)

-- Completing a workflow finishes it, whatever conditions it had.
pub is_finished-add_complete_condition :
    (now : ℕ) (wf : Workflow) → is_finished (add_complete_condition now wf) ≡ true
unfolding add_complete_condition
is_finished-add_complete_condition now wf =
    (is_finished_iff (add_complete_condition now wf)).1
      (_, In-append_right _ wf.status.conditions _ (inl refl), (inl refl, refl))

-- `SetUID` panics exactly where the workflow has a selector of jobs whose map of labels is nil.
pub set_uid_panics :
    (wf : Workflow)
    → (set_uid wf ≡ none)
      ↔ ((s : LabelSelector) × (wf.spec.jobs_selector ≡ some s) × (s.match_labels ≡ nil_map))
unfolding set_uid
set_uid_panics wf = ground arith

-- A completed step: its status is there and says so.
abbrev pub Completed : GoMap WorkflowStepStatus → String → Type 0
Completed statuses name =
    (st : WorkflowStepStatus) × (get name statuses ≡ some st) × (st.complete ≡ true)

pub step_complete_iff :
    (statuses : GoMap WorkflowStepStatus) (name : String)
    → (step_complete statuses name ≡ true) ↔ Completed statuses name
unfolding step_complete
step_complete_iff statuses name = ground arith

pub all_complete_iff :
    (statuses : GoMap WorkflowStepStatus) (ds : List String)
    → (all_complete statuses ds ≡ true) ↔ All (Completed statuses) ds
unfolding all_complete
all_complete_iff statuses [] = (λ _. tt, λ _. refl)
all_complete_iff statuses (d ∷ ds) =
    ground (arith, step_complete_iff statuses d, all_complete_iff statuses ds)

-- What `SetDefaults` leaves behind where it does not panic: an empty, made map of statuses, the start
-- time, and the workflow's UID under the UID label of the workflow and of its selector; every other
-- label, the steps and the conditions are as they were.
pub record Defaulted (now : ℕ) (wf wf' : Workflow) : Type 0 where
  pub fresh_statuses : wf'.status.statuses ≡ made []
  pub started : wf'.status.start_time ≡ some now
  pub labelled : get workflow_uid_label wf'.meta.labels ≡ some wf.meta.uid
  pub selector : LabelSelector
  pub selecting : wf'.spec.jobs_selector ≡ some selector
  pub selected : get workflow_uid_label selector.match_labels ≡ some wf.meta.uid
  pub expressions :
      selector.match_expressions ≡ (selector_or_new wf.spec.jobs_selector).match_expressions
  pub other_labels :
      (k : String) → k ≢ workflow_uid_label → get k wf'.meta.labels ≡ get k wf.meta.labels
  pub other_matches :
      (k : String)
      → k ≢ workflow_uid_label
      → get k selector.match_labels ≡ get k (selector_or_new wf.spec.jobs_selector).match_labels
  pub same_steps : wf'.spec.steps ≡ wf.spec.steps
  pub same_conditions : wf'.status.conditions ≡ wf.status.conditions

pub get-add_labels :
    (k : String) (v : String) (j : String) (m : GoMap String)
    → get j (add_labels ((k, v) ∷ []) m) ≡ (if k == j then some v else get j m)
unfolding add_labels insert_all lookup insert
get-add_labels k v j nil_map = refl
get-add_labels k v j (made m) = lookup-insert k j v m

-- The workflow that `SetDefaults` leaves behind, with the new labels of its selector.
abbrev defaulted : ℕ → Workflow → GoMap String → Workflow
defaulted now wf ls = record wf {
  meta = record (wf.meta) {
    labels = add_labels ((workflow_uid_label, wf.meta.uid) ∷ []) wf.meta.labels;
  };
  spec = record (wf.spec) {
    jobs_selector = some (record (selector_or_new wf.spec.jobs_selector) { match_labels = ls });
  };
  status = record (wf.status) { statuses = made []; start_time = some now };
}

set_defaults-eq :
    (now : ℕ) (wf wf' : Workflow)
    → set_defaults now wf ≡ some wf'
    → (ls : GoMap String) × (assign workflow_uid_label wf.meta.uid
          (selector_or_new wf.spec.jobs_selector).match_labels
        ≡ some ls)
      × (wf' ≡ defaulted now wf ls)
unfolding set_defaults
set_defaults-eq now wf wf' h =
    elim (Option-cases (
      assign workflow_uid_label wf.meta.uid (selector_or_new wf.spec.jobs_selector).match_labels)) [
        | inl e ↦ ground arith
        | inr (ls, e) ↦ (ls, e, ground arith)
      ]

pub set_defaults-Defaulted :
    (now : ℕ) (wf wf' : Workflow) → set_defaults now wf ≡ some wf' → Defaulted now wf wf'
set_defaults-Defaulted now wf wf' h =
    let (ls, assigned, e) = set_defaults-eq now wf wf' h in
    subst (Defaulted now wf) (sym e) (record {
      fresh_statuses = refl;
      started = refl;
      labelled = simp get-add_labels;
      selector = record (selector_or_new wf.spec.jobs_selector) { match_labels = ls };
      selecting = refl;
      selected = get-assign workflow_uid_label workflow_uid_label _ _ _ assigned;
      expressions = refl;
      other_labels = λ k n.
          get-add_labels workflow_uid_label wf.meta.uid k wf.meta.labels
          ∙ rw (ne→eq_false workflow_uid_label k (λ e. n (sym e)));
      other_matches = λ k n.
          get-assign k workflow_uid_label _ _ _ assigned
          ∙ rw (ne→eq_false workflow_uid_label k (λ e. n (sym e)));
      same_steps = refl;
      same_conditions = refl;
    })
