-- ===== src/Job/Fake.antt =====
-- pkg/job/control.go: `FakeControl`, the job control of the tests.
use kubernetes_workflow.Base.{String, List, [], ◌∷◌, ◌++◌, Option, some, none}
use kubernetes_workflow.Api.Meta.{JobTemplateSpec}

pub record FakeControl : Type 0 where
  pub created_job_templates : List JobTemplateSpec
  pub deleted_job_names : List String
  pub err : Option String

unfoldable pub fake_create_job : JobTemplateSpec → FakeControl → Option String × FakeControl
fake_create_job template f =
    (none, record f { created_job_templates = f.created_job_templates ++ template ∷ [] })

unfoldable pub fake_delete_job : String → FakeControl → Option String × FakeControl
fake_delete_job name f = elim f.err [
  | some e ↦ (some e, f)
  | none ↦ (none, record f { deleted_job_names = f.deleted_job_names ++ name ∷ [] })
]
