-- ===== src/Base/Int.antt =====
-- Signed integers: the values of Go's `int64`.
use kubernetes_workflow.Base.{ℕ}

-- `negsuc n` is -(n + 1).
pub data ℤ : Type 0 where
  pos : ℕ → ℤ
  negsuc : ℕ → ℤ
