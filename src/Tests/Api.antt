-- ===== src/Tests/Api.antt =====
-- The methods of a workflow, the lookups and the expectations at small inputs.
use kubernetes_workflow.Base.{List, ◌∷◌}
use kubernetes_workflow.Expectations.Laws.{pending, settled}
use kubernetes_workflow.Expectations.Refinement.{
  Operation, creation_expected, creation_seen, apply_all, expected_since, satisfied-apply_all,
}
use kubernetes_workflow.Base.{[], ◌∷◌, none, some, ◌≡◌, ◌↔◌, refl}
use kubernetes_workflow.GoMap.{made, nil_map, lookup, insert, insert_all}
use kubernetes_workflow.Api.Meta.{LabelSelector}
use kubernetes_workflow.Api.Types.{Workflow}
use kubernetes_workflow.Api.Methods.{add_labels, set_labels, set_uid, set_defaults}
use kubernetes_workflow.Api.Laws.{Defaulted, set_uid_panics, set_defaults-Defaulted}
use kubernetes_workflow.Expectations.{expectations_satisfied}
use kubernetes_workflow.Samples.{chain, sample_workflow}

-- A workflow as a user sends it: no labels and no statuses.
abbrev new_workflow : Workflow
new_workflow = sample_workflow nil_map chain nil_map

-- Its selector has only expressions.
abbrev expressions_only : Workflow
expressions_only = record new_workflow {
  spec = record (new_workflow.spec) {
    jobs_selector = some (record { match_labels = nil_map; match_expressions = [] });
  };
}

abbrev defaults_of_new : Workflow
defaults_of_new = record new_workflow {
  meta = record (new_workflow.meta) { labels = made (("nerdalize.com/workflow-uid", "u1") ∷ []) };
  spec = record (new_workflow.spec) {
    jobs_selector = some (record {
      match_labels = made (("nerdalize.com/workflow-uid", "u1") ∷ []);
      match_expressions = [];
    });
  };
  status = record (new_workflow.status) { statuses = made []; start_time = some 7 };
}

set_defaults-new : set_defaults 7 new_workflow ≡ some defaults_of_new
unfolding set_defaults set_labels set_uid add_labels insert_all insert lookup
set_defaults-new = refl

set_defaults-Defaulted_example : Defaulted 7 new_workflow defaults_of_new
set_defaults-Defaulted_example =
    set_defaults-Defaulted 7 new_workflow defaults_of_new set_defaults-new

set_uid_panics_example : (set_uid expressions_only ≡ none) ↔ (
    (s : LabelSelector) × (expressions_only.spec.jobs_selector ≡ some s)
    × (s.match_labels ≡ nil_map))
set_uid_panics_example = set_uid_panics expressions_only

abbrev some_operations : List Operation
some_operations = creation_expected 7 "ns/wf" "a" ∷ creation_seen "ns/wf" "b" ∷ []

satisfied-apply_all_example :
    expectations_satisfied 9 "ns/wf" "a" (apply_all some_operations [])
    ≡ settled 9 (expected_since "ns/wf" "a" some_operations (pending [] "ns/wf" "a"))
satisfied-apply_all_example = satisfied-apply_all 9 "ns/wf" "a" some_operations []
