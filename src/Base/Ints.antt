-- ===== src/Base/Ints.antt =====
-- Integers over the native numbers, for the `int` of a call.
use Prim.Native.Nat.{ℕ}

pub data ℤ : Type 0 where
  pos : ℕ → ℤ
  negsuc : ℕ → ℤ
