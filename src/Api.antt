-- ===== src/Api.antt =====
-- pkg/api/types.go and pkg/api/constants.go: the workflow resource and its methods. The types of
-- Kubernetes that it is built from stand in `Meta`.
pub mod Meta
pub mod Types
pub mod Methods
pub mod Laws
