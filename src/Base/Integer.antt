-- ===== src/Base/Integer.antt =====
-- Whole numbers.
use Prim.Native.Nat.{ℕ}

-- An `int`: `negsuc n` is -(n + 1).
pub data ℤ : Type 0 where
  pos : ℕ → ℤ
  negsuc : ℕ → ℤ
