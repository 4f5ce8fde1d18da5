-- ===== src/Manager/System/Fence.antt =====
-- pkg/workflow/utils.go and the creation of a step's job in pkg/workflow/transitioner.go: how the
-- expectation of a creation holds the next one back, within a transition.
use kubernetes_workflow.Base.{
  ℕ, suc, ◌-◌, ◌≤◌, ◌<◌, String, List, [], ◌∷◌, true, some, ◌==◌, ltb, if◌then◌else◌, ◌≡◌, ◌⊎◌,
  refl, sym, ◌∙◌, ap, arith, eq_refl, inl, inr,
}
use kubernetes_workflow.Api.Meta.{Job, JobTemplateSpec}
use kubernetes_workflow.Api.Types.{Workflow}
use kubernetes_workflow.Expectations.{
  Expectations, expectations_timeout, expectations_satisfied, expect_creation,
}
use kubernetes_workflow.Expectations.Laws.{
  pending, settled, satisfied-pending, pending-expect_creation,
}
use kubernetes_workflow.Job.{workflow_step_label_key, workflow_job_label_set}
use kubernetes_workflow.Job.Labels.{label_or_empty, step_of_labels}
use kubernetes_workflow.World.{Cluster, World}
use kubernetes_workflow.Transitioner.Steps.Contract.{Made}

-- How many of the created jobs have the label of the step.
unfoldable pub count_named : String → List (String × Job) → ℕ
count_named step [] = 0
count_named step ((namespace, job) ∷ created) =
    let rest = count_named step created in
    if label_or_empty workflow_step_label_key job.meta.labels == step then suc rest else rest

-- A creation counts under the name that the labels have.
pub count_named-Made :
    (namespace step name : String) (wf : Workflow) (template : JobTemplateSpec) (w w' : World)
    → Made namespace (workflow_job_label_set wf template name) w w'
    → count_named step w'.created
      ≡ (if name == step then suc (count_named step w.created) else count_named step w.created)
unfolding count_named
count_named-Made namespace step name wf template w w' m =
    rw (m.added, step_of_labels m.job.meta.labels wf template name m.labelled) refl

-- Of two questions for the time since `start`, the answer to the later one was more than the timeout
-- after the answer to the earlier one.
abbrev pub TimeoutPassed : Cluster → ℕ → ℕ → Type 0
TimeoutPassed cluster start asked =
    (q r : ℕ) × (start ≤ q)
    × (q < r)
    × (r < asked)
    × (ltb expectations_timeout (cluster.now r - cluster.now q) ≡ true)

module _ (cluster : Cluster) (key step : String) (start : ℕ) where
  -- No job was created for the step, or one, whose creation is expected since then.
  abbrev pub Sole : ℕ → ℕ → Expectations → Type 0
  Sole total asked e =
      (total ≡ 0)
      ⊎ ((q : ℕ) × (total ≡ 1)
          × (start ≤ q)
          × (q < asked)
          × (pending e key step ≡ some (cluster.now q)))

  -- The same, unless the timeout has passed.
  abbrev pub Fenced : ℕ → ℕ → Expectations → Type 0
  Fenced total asked e = TimeoutPassed cluster start asked ⊎ Sole total asked e

  TimeoutPassed-later :
      {i j : ℕ} → i ≤ j → TimeoutPassed cluster start i → TimeoutPassed cluster start j
  TimeoutPassed-later more (q, r, a, b, c, d) = (q, r, a, b, omega (arith, more, c), d)

  -- Questions and operations that leave the step's expectation keep the fence.
  pub Fenced-kept :
      {i j : ℕ} (e e' : Expectations) (total : ℕ)
      → i ≤ j
      → pending e' key step ≡ pending e key step
      → Fenced total i e
      → Fenced total j e'
  Fenced-kept e e' total more same (inl late) = inl (TimeoutPassed-later more late)
  Fenced-kept e e' total more same (inr (inl zero_made)) = inr (inl zero_made)
  Fenced-kept e e' total more same (inr (inr (q, one, a, b, p))) =
      inr (inr (q, one, a, omega (arith, more, b), same ∙ p))

  -- Where the step's expectations are settled, another creation means that the timeout has passed.
  pub Fenced-made :
      {i j question : ℕ} (e : Expectations) (total : ℕ)
      → start ≤ i
      → i < question
      → question < j
      → expectations_satisfied (cluster.now i) key step e ≡ true
      → Fenced total i e
      → Fenced (suc total) j (expect_creation (cluster.now question) key step e)
  Fenced-made e total from after before satisfied (inl late) =
      inl (TimeoutPassed-later (omega (arith, after, before)) late)
  Fenced-made {i} {j} {question} e total from after before satisfied (inr (inl none_made)) = inr (
      inr (
        question,
        ap suc none_made,
        omega (arith, from, after),
        before,
        pending-expect_creation (cluster.now question) key step key step e ∙ simp eq_refl,
      ))
  Fenced-made {i} {j} {question} e total from after before satisfied (inr (inr (q, one, a, b, p))) =
      inl (
        q,
        i,
        a,
        b,
        omega (arith, after, before),
        sym (ap (settled (cluster.now i)) p)
            ∙ (sym (satisfied-pending (cluster.now i) key step e) ∙ satisfied),
      )
