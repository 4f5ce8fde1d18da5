-- ===== src/Tests/Jobs.antt =====
-- The jobs of a step and the lookups at small inputs.
use kubernetes_workflow.Base.{[], ◌∷◌}
use kubernetes_workflow.Api.Meta.{Job}
use kubernetes_workflow.World.{Cluster, updated}
use kubernetes_workflow.Samples.{sample_job, complete_condition, uid_labels, sample_cluster}

abbrev finished_job : Job
finished_job = sample_job uid_labels (complete_condition ∷ [])

abbrev jobs_cluster : Cluster
jobs_cluster = sample_cluster (finished_job ∷ []) (λ i. updated)
