-- ===== src/Validation.antt =====
-- pkg/validation/validation.go: `Sort` is `topologicalSort`, `Workflow` the validation of a workflow
-- and `Update` that of an update. The validators of Kubernetes that they call are the parameter
-- `Rules` of `Field`.
pub mod Field
pub mod Sort
pub mod Workflow
pub mod Update
