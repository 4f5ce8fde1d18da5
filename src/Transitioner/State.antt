-- ===== src/Transitioner/State.antt =====
-- pkg/workflow/transitioner.go: the constants, and the sharing of maps with the informer's store.
-- `workflowByKey` copies the workflow's struct, not its maps: a map that the stored workflow has is
-- the same map in the copy, so what is written to the copy's labels, statuses and selector is written
-- to the store. Only this transition writes to the stored workflow while it runs.
use kubernetes_workflow.Base.{
  ℕ, ◌*◌, ◌^◌, String, List, [], ◌∷◌, Bool, true, false, Option, some, none, ◌==◌, if◌then◌else◌,
}
use kubernetes_workflow.GoMap.{GoMap, is_nil}
use kubernetes_workflow.Api.Meta.{LabelSelector}
use kubernetes_workflow.Api.Types.{Workflow}
use kubernetes_workflow.World.{Action, modify}

-- `api.Group + "/valid"` and `api.Group + "/pause"`.
abbrev pub workflow_valid_label : String
workflow_valid_label = "nerdalize.com/valid"

abbrev pub workflow_pause_label : String
workflow_pause_label = "nerdalize.com/pause"

abbrev pub false_string : String
false_string = "false"

abbrev pub true_string : String
true_string = "true"

-- 500 and 100 milliseconds, in nanoseconds.
abbrev pub requeue_after_status_conflict_time : ℕ
requeue_after_status_conflict_time = 500 * 10 ^ 6

abbrev pub requeue_jobstore_not_synced_time : ℕ
requeue_jobstore_not_synced_time = 100 * 10 ^ 6

abbrev pub retry_on_status_conflict : ℕ
retry_on_status_conflict = 3

-- `strconv.FormatBool`.
abbrev pub format_bool : Bool → String
format_bool true = true_string
format_bool false = false_string

-- The stored workflow under the key, changed.
unfoldable pub update_entry :
    String → (Workflow → Workflow) → List (String × Workflow) → List (String × Workflow)
update_entry key f [] = []
update_entry key f ((k, wf) ∷ store) =
    if k == key then (k, f wf) ∷ store else (k, wf) ∷ update_entry key f store

-- The map that the copy has, where the stored workflow has a map to share.
abbrev pub shared_map {ℓ} : {V : Type ℓ} → GoMap V → GoMap V → GoMap V
shared_map stored copy = if is_nil stored then stored else copy

abbrev pub shared_selector : Option LabelSelector → Option LabelSelector → Option LabelSelector
shared_selector none copy = none
shared_selector (some s) copy = copy

abbrev pub with_labels : GoMap String → Workflow → Workflow
with_labels labels wf = record wf { meta = record (wf.meta) { labels = labels } }

-- What the stored workflow looks like once the copy's labels, selector or statuses were written to.
unfoldable pub share_labels : String → Workflow → Action (Unit {0})
share_labels key copy = modify (λ w. record w {
  store =
      update_entry key (λ wf. with_labels (shared_map wf.meta.labels copy.meta.labels) wf) w.store;
})

unfoldable pub share_selector : String → Workflow → Action (Unit {0})
share_selector key copy = modify (λ w. record w {
  store =
      update_entry key
        (λ wf. record wf {
          spec = record (wf.spec) {
            jobs_selector = shared_selector wf.spec.jobs_selector copy.spec.jobs_selector;
          };
        })
        w.store;
})

unfoldable pub share_statuses : String → Workflow → Action (Unit {0})
share_statuses key copy = modify (λ w. record w {
  store =
      update_entry key
        (λ wf. record wf {
          status = record (wf.status) {
            statuses = shared_map wf.status.statuses copy.status.statuses;
          };
        })
        w.store;
})
