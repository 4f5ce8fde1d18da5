-- ===== src/Transitioner/Steps/Listed.antt =====
-- pkg/job/control.go and pkg/client/cache/listers.go together: a job that was created for a step, and
-- the list of the step's jobs that is read from the informer's store.
use kubernetes_workflow.Base.{
  String, List, ◌∷◌, Bool, true, false, some, none, ◌==◌, if◌then◌else◌, ◌≡◌, ◌≢◌, ◌↔◌, refl, subst,
  arith, eq_iff, inl, inr,
}
use kubernetes_workflow.GoMap.{GoMap, made, entries, lookup, get, keys}
use kubernetes_workflow.GoMap.Laws.{Distinct, lookup-insert_self}
use kubernetes_workflow.Api.Meta.{JobTemplateSpec, Job}
use kubernetes_workflow.Api.Types.{Workflow}
use kubernetes_workflow.Job.{workflow_step_label_key, workflow_job_label_set, create_job}
use kubernetes_workflow.Job.Labels.{lookup-workflow_job_label_set}
use kubernetes_workflow.Cache.{list_jobs}
use kubernetes_workflow.World.{Cluster, World, ok}
use kubernetes_workflow.World.Runs.{Runs}
use kubernetes_workflow.Transitioner.Steps.Contract.{Creation, create_job-Creation}

-- What a set of labels asks for is among the labels.
abbrev pub Within : List (String × String) → GoMap String → Type 0
Within set labels = (k v : String) → lookup k set ≡ some v → get k labels ≡ some v

-- The documented behaviour of `SelectorFromSet`: it matches the labels that have every entry of the
-- set.
abbrev pub SelectsWithin : Cluster → Type 0
SelectsWithin cluster =
    (set : List (String × String)) (labels : GoMap String)
    → (cluster.set_matches set labels ≡ true) ↔ Within set labels

-- The job as the server gives it out: in the namespace, with the labels that it was created with.
abbrev pub IsServed : String → Job → Job → Type 0
IsServed namespace job served =
    (served.meta.labels ≡ job.meta.labels) × (served.meta.namespace ≡ namespace)

lookup-step :
    (wf : Workflow) (template : JobTemplateSpec) (name : String)
    → lookup workflow_step_label_key (workflow_job_label_set wf template name) ≡ some name
unfolding workflow_job_label_set
lookup-step wf template name = lookup-insert_self workflow_step_label_key name _

-- A set that asks for what is not held does not select.
unselected :
    (b : Bool) (set held : List (String × String)) (key value : String)
    → (b ≡ true) ↔ Within set (made held)
    → lookup key set ≡ some value
    → lookup key held ≡ none
    → b ≡ false
unselected false set held key value selected asked absent = refl
unselected true set held key value selected asked absent =
    cc (selected.0 refl key value asked, absent)

module _ (cluster : Cluster) where
  -- A list that begins with a job of the namespace.
  pub list_jobs-head :
      (namespace : String) (set : List (String × String)) (job : Job) (jobs : List Job) (b : Bool)
      → job.meta.namespace ≡ namespace
      → cluster.set_matches set job.meta.labels ≡ b
      → list_jobs cluster namespace set (job ∷ jobs) ≡ (
          if b
          then job ∷ list_jobs cluster namespace set jobs
          else list_jobs cluster namespace set jobs)
  unfolding list_jobs
  list_jobs-head namespace set job jobs b there matches =
      ground (arith, eq_iff namespace job.meta.namespace)

  module _ (selects : SelectsWithin cluster) where
    step_selected :
        (wf : Workflow) (template other : JobTemplateSpec) (name step : String)
        → (name ≡ step → template ≡ other)
        → (cluster.set_matches
              (workflow_job_label_set wf other step)
              (made (workflow_job_label_set wf template name))
            ≡ true)
          ↔ (name ≡ step)
    step_selected wf template other name step same =
        let own =
          selects (workflow_job_label_set wf other step)
            (made (workflow_job_label_set wf template name)) in
        (
          λ m. cc (
            lookup-step wf template name,
            own.0 m workflow_step_label_key step (lookup-step wf other step),
          ),
          λ e. own.1 (λ k v h. rw (e, same e) h),
        )

    -- The set of a step selects the jobs that were created with it, and no job of another step.
    pub selects_step :
        (wf : Workflow) (template other : JobTemplateSpec) (name step : String)
        → (name ≡ step → template ≡ other)
        → cluster.set_matches
            (workflow_job_label_set wf other step)
            (made (workflow_job_label_set wf template name))
          ≡ (name == step)
    selects_step wf template other name step same =
        ground (arith, eq_iff name step, step_selected wf template other name step same)

    made_job_listed :
        (wf : Workflow) (template other : JobTemplateSpec) (name step : String) (w w' : World)
        → (name ≡ step → template ≡ other)
        → Creation wf.meta.namespace (workflow_job_label_set wf template name) none w w'
        → (job : Job) × (w'.created ≡ (wf.meta.namespace, job) ∷ w.created)
          × ((served : Job) (jobs : List Job)
              → IsServed wf.meta.namespace job served
              → list_jobs cluster wf.meta.namespace
                  (workflow_job_label_set wf other step)
                  (served ∷ jobs)
                ≡ (let rest =
                      list_jobs cluster wf.meta.namespace
                        (workflow_job_label_set wf other step)
                        jobs in
                    if name == step then served ∷ rest else rest))
    made_job_listed wf template other name step w w' same c = elim c.either [
      | inl failed ↦ absurd (failed.1 refl)
      | inr (m, e) ↦ (
        m.job,
        m.added,
        λ served jobs is_served.
            list_jobs-head wf.meta.namespace (workflow_job_label_set wf other step) served jobs _
              is_served.1
              (rw (is_served.0, m.labelled) (selects_step wf template other name step same)),
      )
    ]

    -- A job that `CreateJob` made for a step, as the server gives it out, is in the list of the step's
    -- jobs, and in no other step's, whatever else the store has.
    pub created_job_listed :
        (wf : Workflow) (template other : JobTemplateSpec) (name step : String) (w w' : World)
        → (name ≡ step → template ≡ other)
        → create_job cluster wf.meta.namespace template wf name w ≡ (ok none, w')
        → (job : Job) × (w'.created ≡ (wf.meta.namespace, job) ∷ w.created)
          × ((served : Job) (jobs : List Job)
              → IsServed wf.meta.namespace job served
              → list_jobs cluster wf.meta.namespace
                  (workflow_job_label_set wf other step)
                  (served ∷ jobs)
                ≡ (let rest =
                      list_jobs cluster wf.meta.namespace
                        (workflow_job_label_set wf other step)
                        jobs in
                    if name == step then served ∷ rest else rest))
    created_job_listed wf template other name step w w' same done =
        made_job_listed wf template other name step w w' same (
          subst
            (Runs (λ e. Creation wf.meta.namespace (workflow_job_label_set wf template name) e w)
              (λ v. ⊥))
            done (create_job-Creation cluster wf.meta.namespace template wf name w))

    -- A job of a step is not in the list of the step's jobs any more once the workflow has a label
    -- under a key where neither the workflow nor the template had one when the job was created.
    pub labelled_job_hidden :
        (wf later : Workflow) (template : JobTemplateSpec) (name key value : String) (served : Job)
        (jobs : List Job)
        → Distinct (keys (entries wf.meta.labels))
        → Distinct (keys (entries later.meta.labels))
        → Distinct (keys (entries template.meta.labels))
        → served.meta.labels ≡ made (workflow_job_label_set wf template name)
        → served.meta.namespace ≡ wf.meta.namespace
        → key ≢ workflow_step_label_key
        → get key template.meta.labels ≡ none
        → get key wf.meta.labels ≡ none
        → get key later.meta.labels ≡ some value
        → list_jobs cluster wf.meta.namespace
            (workflow_job_label_set later template name)
            (served ∷ jobs)
          ≡ list_jobs cluster wf.meta.namespace (workflow_job_label_set later template name) jobs
    labelled_job_hidden wf later template name key value served jobs dw dl dt labels there other
          untemplated unlabelled labelled =
        let asked : lookup key (workflow_job_label_set later template name) ≡ some value = ground (
          arith,
          eq_iff workflow_step_label_key key,
          lookup-workflow_job_label_set later template name key dl dt,
        ) in
        let held : lookup key (workflow_job_label_set wf template name) ≡ none = ground (
          arith,
          eq_iff workflow_step_label_key key,
          lookup-workflow_job_label_set wf template name key dw dt,
        ) in
        list_jobs-head wf.meta.namespace _ served jobs false there (
          rw labels (
            unselected _ _ _ key value
              (selects (workflow_job_label_set later template name)
                (made (workflow_job_label_set wf template name)))
              asked held))
