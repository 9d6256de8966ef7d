-- ===== src/Prelude/Int.antt =====
-- The integers over the native numbers, for `i64` values.
use Prim.Native.Nat.{ℕ}

-- `negsuc n` is -(n + 1).
pub data ℤ : Type 0 where
  pos : ℕ → ℤ
  negsuc : ℕ → ℤ
