-- ===== src/Prelude/Integers.antt =====
-- Integers over the native numbers: what strconv.Atoi gives.
use Prim.Native.Nat.{ℕ}

pub data ℤ : Type 0 where
  pos : ℕ → ℤ
  negsuc : ℕ → ℤ
