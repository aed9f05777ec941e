-- ===== src/Base/Int.antt =====
-- Signed whole numbers and their comparisons. It models no code of its own.
use Prim.Native.Nat.{ℕ, suc, ◌+◌}
use mathlib.Core.Bool.{Bool}
use salesinfo_api_v.Base.Tests.{ltb, leb}

-- `negsuc n` is -(n + 1).
pub data ℤ : Type 0 where
  pos : ℕ → ℤ
  negsuc : ℕ → ℤ

abbrev pub above_zero : ℤ → ℕ
above_zero (pos n) = n
above_zero (negsuc n) = 0

abbrev pub below_zero : ℤ → ℕ
below_zero (pos n) = 0
below_zero (negsuc n) = suc n

-- `a < b` and `a <= b`.
abbrev pub lt_int : ℤ → ℤ → Bool
lt_int a b = ltb (above_zero a + below_zero b) (above_zero b + below_zero a)

abbrev pub le_int : ℤ → ℤ → Bool
le_int a b = leb (above_zero a + below_zero b) (above_zero b + below_zero a)
