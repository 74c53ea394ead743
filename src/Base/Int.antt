-- ===== src/Base/Int.antt =====
-- Signed whole numbers, where a caller may pass one.
use Prim.Native.Nat.{ℕ}

-- `negsuc n` is -(n + 1).
pub data ℤ : Type 0 where
  pos : ℕ → ℤ
  negsuc : ℕ → ℤ
