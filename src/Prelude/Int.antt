-- ===== src/Prelude/Int.antt =====
-- Signed integers, for values that the source takes with a sign; `negsuc n` is -(n + 1).
use Prim.Native.Nat.{ℕ}

pub data ℤ : Type 0 where
  pos : ℕ → ℤ
  negsuc : ℕ → ℤ
