-- ===== src/Tests/Race.antt =====
-- The jobs of one step, created, listed and observed, at small inputs.
use kubernetes_workflow.Base.{
  member, ℕ, suc, ◌-◌, ◌≤◌, String, List, [], ◌∷◌, Bool, true, false, ◌&&◌, Option, some, none,
  ◌==◌, ◌≡◌, ◌↔◌, inl, inr, refl, sym, subst, arith, eq_iff, In, if◌then◌else◌,
}
use kubernetes_workflow.GoMap.{GoMap, made, lookup, get, keys, insert, insert_all}
use kubernetes_workflow.GoMap.Laws.{In-keys}
use kubernetes_workflow.Api.Meta.{Job}
use kubernetes_workflow.Api.Types.{Workflow}
use kubernetes_workflow.Expectations.{expectations_timeout, expectations_satisfied}
use kubernetes_workflow.Job.{
  workflow_job_label_set, jobs_annotation_set, jobs_prefix, send_job, create_job,
}
use kubernetes_workflow.Cache.{list_jobs}
use kubernetes_workflow.World.{Cluster, World, ok, updated}
use kubernetes_workflow.World.Runs.{Runs}
use kubernetes_workflow.Transitioner.Steps.{process_job_step}
use kubernetes_workflow.Transitioner.Steps.Listed.{
  SelectsWithin, IsServed, created_job_listed, labelled_job_hidden,
}
use kubernetes_workflow.Manager.Race.{
  Race, idle, accepted, InWindow, lists, clears, creates, Reach, here, next, IsStart,
}
use kubernetes_workflow.Manager.Race.Bound.{created_bounded}
use kubernetes_workflow.Manager.Race.Twice.{created_twice, observed_early}
use kubernetes_workflow.Manager.Race.Runs.{Played, Unplayed, process_job_step-Played}
use kubernetes_workflow.Samples.{
  fresh_workflow, sample_workflow, chain, sample_template, sample_job, sample_cluster, sample_world,
  job_step,
}

-- What is asked for under a key is held under it.
abbrev agree : Option String → Option String → Bool
agree none held = true
agree (some v) none = false
agree (some v) (some x) = x == v

abbrev agree_under : List String → List (String × String) → GoMap String → Bool
agree_under [] set labels = true
agree_under (k ∷ ks) set labels = agree (lookup k set) (get k labels) && agree_under ks set labels

agree_iff :
    (asked held : Option String)
    → (agree asked held ≡ true) ↔ ((v : String) → asked ≡ some v → held ≡ some v)
agree_iff none held = (λ h v e. cc e, λ h. refl)
agree_iff (some v) none = (λ h w e. cc h, λ h. cc (h v refl))
agree_iff (some v) (some x) =
    (λ h w e. cc ((eq_iff x v).0 h, e), λ h. (eq_iff x v).1 (cc (h v refl)))

agree_under_iff :
    (ks : List String) (set : List (String × String)) (labels : GoMap String)
    → (agree_under ks set labels ≡ true)
      ↔ ((k : String) → In k ks → (v : String) → lookup k set ≡ some v → get k labels ≡ some v)
agree_under_iff [] set labels = (λ h k m v e. absurd m, λ h. refl)
agree_under_iff (k ∷ ks) set labels =
    let head = agree_iff (lookup k set) (get k labels) in
    let rest = agree_under_iff ks set labels in
    (
      λ h j m v e. elim m [
        | inl same ↦
            subst (λ i. lookup i set ≡ some v → get i labels ≡ some v) (sym same)
              (head.0 (ground arith) v) e
        | inr later ↦ rest.0 (ground arith) j later v e
      ],
      λ h. simp (head.1 (λ v e. h k (inl refl) v e), rest.1 (λ j m v e. h j (inr m) v e)),
    )

-- An outside whose selectors select as documented, and whose clock stands still.
abbrev steady : Cluster
steady = record (sample_cluster [] (λ i. updated)) {
  set_matches = λ set labels. agree_under (keys set) set labels;
  now = λ i. 5;
}

steady_selects : SelectsWithin steady
steady_selects set labels =
    let law = agree_under_iff (keys set) set labels in
    (λ h k v e. law.0 h k (In-keys k set e) v e, λ h. law.1 (λ k m v e. h k v e))

race_program : Unit {0}
unfolding create_job send_job jobs_annotation_set jobs_prefix workflow_job_label_set insert_all
    insert lookup expectations_satisfied list_jobs
race_program = tt

abbrev before_a : World
before_a = sample_world fresh_workflow

-- The job of the step `a`, as the server gives it out.
abbrev job_of_a : Job
job_of_a = sample_job (made (workflow_job_label_set fresh_workflow sample_template "a")) []

abbrev after_a : World
after_a = (create_job steady "ns" sample_template fresh_workflow "a" before_a).1

created-a : create_job steady "ns" sample_template fresh_workflow "a" before_a ≡ (ok none, after_a)
unfolding race_program
created-a = refl

abbrev set_of_a : List (String × String)
set_of_a = workflow_job_label_set fresh_workflow sample_template "a"

created_job_listed_example :
    (job : Job) × (after_a.created ≡ ("ns", job) ∷ [])
    × ((served : Job) (jobs : List Job)
        → IsServed "ns" job served
        → list_jobs steady "ns" set_of_a (served ∷ jobs) ≡ (
            let rest = list_jobs steady "ns" set_of_a jobs in
            if "a" == "a" then served ∷ rest else rest))
created_job_listed_example =
    created_job_listed steady steady_selects fresh_workflow sample_template sample_template "a" "a"
      before_a after_a (λ e. refl) created-a

-- The workflow with one more label.
abbrev relabelled : Workflow
relabelled =
    sample_workflow (made (("nerdalize.com/workflow-uid", "u1") ∷ ("team", "blue") ∷ [])) chain
      (made [])

labelled_job_hidden_example :
    list_jobs steady "ns" (workflow_job_label_set relabelled sample_template "a") (job_of_a ∷ [])
    ≡ list_jobs steady "ns" (workflow_job_label_set relabelled sample_template "a") []
unfolding race_program member
labelled_job_hidden_example =
    labelled_job_hidden steady steady_selects fresh_workflow relabelled sample_template "a" "team"
      "blue" job_of_a [] (refl, tt) (refl, (refl, tt)) (refl, tt) refl refl
      (λ e. ground (arith, eq_iff "team" "nerdalize.com/workflow")) refl refl refl

abbrev no_jobs : Race
no_jobs = record {
  phase = idle;
  expectations = [];
  stored = [];
  unreported = 0;
  unhandled = 0;
  created = 0;
  crossed = 0;
}

no_jobs-IsStart : IsStart steady fresh_workflow sample_template "a" no_jobs
unfolding race_program
no_jobs-IsStart = record {
  at_rest = refl;
  none_stored = refl;
  none_unreported = refl;
  none_unhandled = refl;
  none_created = refl;
  none_crossed = refl;
}

at_once : InWindow 0 5
at_once = (omega arith, omega arith)

abbrev one_job : Race
one_job = record no_jobs { phase = accepted; unreported = 1; created = 1 }

one_job-Reach : Reach steady 0 fresh_workflow sample_template "a" no_jobs one_job
unfolding race_program
one_job-Reach =
    next (next (next here (lists no_jobs refl)) (clears _ 5 refl at_once refl)) (creates _ refl)

created_bounded_example : (one_job.created ≤ 2) × (one_job.created ≤ suc one_job.crossed)
created_bounded_example =
    created_bounded steady 0 fresh_workflow sample_template "a" steady_selects no_jobs-IsStart
      one_job-Reach

clear-a : expectations_satisfied 5 "wf" "a" [] ≡ true
unfolding race_program
clear-a = refl

created_twice_example :
    (u : Race) × Reach steady 0 fresh_workflow sample_template "a" no_jobs u × (u.created ≡ 2)
created_twice_example =
    created_twice steady 0 5 fresh_workflow sample_template "a" "wf" job_of_a refl (refl, refl)
      at_once no_jobs (no_jobs-IsStart, clear-a)

observed_early_example :
    (u : Race) × Reach steady 0 fresh_workflow sample_template "a" no_jobs u
    × (u.unreported ≡ 0)
    × (u.unhandled ≡ 0)
    × ((later : ℕ)
        → later - 5 ≤ expectations_timeout
        → expectations_satisfied later "wf" "a" u.expectations ≡ false)
observed_early_example =
    observed_early steady 0 5 fresh_workflow sample_template "a" "wf" job_of_a refl (refl, refl)
      at_once no_jobs (no_jobs-IsStart, clear-a)

process_job_step-Played_example :
    Runs
      (λ r w'. Played steady 0 fresh_workflow sample_template "a" (λ i. at_once) no_jobs [] w')
      (λ w'. Unplayed before_a w')
      (process_job_step steady "wf" fresh_workflow "a" (job_step []) sample_template before_a)
unfolding race_program
process_job_step-Played_example =
    process_job_step-Played steady 0 fresh_workflow sample_template "a" (λ i. at_once) no_jobs "wf"
      (job_step []) before_a refl refl refl refl
