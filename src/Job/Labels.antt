-- ===== src/Job/Labels.antt =====
-- The labels of a step's job, and when a job is finished.
use kubernetes_workflow.Base.{
  Option, none, ap, String, List, [], ◌∷◌, Bool, true, ◌&&◌, ◌||◌, some, ◌==◌, if◌then◌else◌, ◌≡◌,
  ◌↔◌, ◌⊎◌, inl, inr, refl, subst, arith, eq_iff, In, Bool-cases,
}
use kubernetes_workflow.GoMap.{GoMap, made, entries, lookup, get, keys}
use kubernetes_workflow.GoMap.Laws.{
  lookup-insert_self, or_else, lookup-insert, lookup-insert_all, lookup-nil, or_else-none, Distinct,
}
use kubernetes_workflow.Api.Meta.{
  JobTemplateSpec, JobCondition, Job, job_complete, job_failed, condition_true,
}
use kubernetes_workflow.Api.Types.{Workflow}
use kubernetes_workflow.Job.{
  workflow_step_label_key, workflow_job_label_set, any_job_finished, is_job_finished,
}

-- `labels[key]` without the `ok` result: a missing key reads as the empty text.
abbrev pub label_or_empty : String → GoMap String → String
label_or_empty key labels = elim (get key labels) [ none ↦ "" | some v ↦ v ]

-- The step that the labels of a step's job name.
pub step_of_labels :
    (labels : GoMap String) (wf : Workflow) (template : JobTemplateSpec) (name : String)
    → labels ≡ made (workflow_job_label_set wf template name)
    → label_or_empty workflow_step_label_key labels ≡ name
unfolding workflow_job_label_set
step_of_labels labels wf template name e =
    let read : get workflow_step_label_key labels ≡ some name =
      rw e (lookup-insert_self workflow_step_label_key name _) in
    ap (λ (o : Option String). elim o [ none ↦ "" | some v ↦ v ]) read

-- The label of a step's job under each key: the step's name under the step key, else the template's
-- label, else the workflow's.
pub lookup-workflow_job_label_set :
    (wf : Workflow) (template : JobTemplateSpec) (step_name k : String)
    → Distinct (keys (entries wf.meta.labels))
    → Distinct (keys (entries template.meta.labels))
    → lookup k (workflow_job_label_set wf template step_name) ≡ (
        if workflow_step_label_key == k
        then some step_name
        else or_else (get k template.meta.labels) (get k wf.meta.labels))
unfolding workflow_job_label_set
lookup-workflow_job_label_set wf template step_name k dw dt = simp (
  lookup-insert,
  lookup-insert_all k (entries template.meta.labels) _ dt,
  lookup-insert_all k (entries wf.meta.labels) [] dw,
  lookup-nil,
  or_else-none,
)

-- A condition that ends a job.
abbrev pub EndsJob : JobCondition → Type 0
EndsJob c = ((c.kind ≡ job_complete) ⊎ (c.kind ≡ job_failed)) × (c.status ≡ condition_true)

abbrev ends_job : JobCondition → Bool
ends_job c = (c.kind == job_complete || c.kind == job_failed) && c.status == condition_true

ends_job_iff : (c : JobCondition) → (ends_job c ≡ true) ↔ EndsJob c
ends_job_iff c =
    ground
      (arith, eq_iff c.kind job_complete, eq_iff c.kind job_failed, eq_iff c.status condition_true)

any_job_finished_sound :
    (cs : List JobCondition) → any_job_finished cs ≡ true → (c : JobCondition) × In c cs × EndsJob c
unfolding any_job_finished
any_job_finished_sound [] h = cc
any_job_finished_sound (d ∷ cs) h = elim (Bool-cases (ends_job d)) [
  | inl now ↦ (d, inl refl, (ends_job_iff d).0 now)
  | inr n ↦
      let (c, m, e) = any_job_finished_sound cs (rw (n, any_job_finished) at h) in (c, inr m, e)
]

any_job_finished_complete :
    (cs : List JobCondition) (c : JobCondition) → In c cs → EndsJob c → any_job_finished cs ≡ true
unfolding any_job_finished
any_job_finished_complete [] c m e = absurd m
any_job_finished_complete (d ∷ cs) c (inl same) e = rw ((ends_job_iff d).1 (subst EndsJob same e))
any_job_finished_complete (d ∷ cs) c (inr m) e = ground (arith, any_job_finished_complete cs c m e)

-- A job is finished exactly when one of its conditions says Complete or Failed with the status True.
pub is_job_finished_iff :
    (j : Job) → (is_job_finished j ≡ true) ↔ ((c : JobCondition) × In c j.conditions × EndsJob c)
unfolding is_job_finished
is_job_finished_iff j =
    (any_job_finished_sound j.conditions, λ (c, m, e). any_job_finished_complete j.conditions c m e)
