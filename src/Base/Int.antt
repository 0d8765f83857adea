-- ===== src/Base/Int.antt =====
-- The `int` values that the program uses: what a call returns, and a largest descriptor. Their
-- range is not modelled here.
use Prim.Native.Nat.{ℕ, zero, suc}
use mathlib.Core.Bool.{Bool, true, false}
use libep.Base.Tests.{ltb, ◌==◌}

-- `negsuc n` is -(n + 1).
pub data ℤ : Type 0 where
  pos : ℕ → ℤ
  negsuc : ℕ → ℤ

abbrev pub minus_one : ℤ
minus_one = negsuc 0

-- `z + 1`
abbrev pub add_one : ℤ → ℤ
add_one (pos n) = pos (suc n)
add_one (negsuc zero) = pos 0
add_one (negsuc (suc n)) = negsuc n

-- `z > 0`, `z >= 0` and `n > z`
abbrev pub is_positive : ℤ → Bool
is_positive (pos zero) = false
is_positive (pos (suc n)) = true
is_positive (negsuc n) = false

abbrev pub is_nonnegative : ℤ → Bool
is_nonnegative (pos n) = true
is_nonnegative (negsuc n) = false

abbrev pub exceeds : ℕ → ℤ → Bool
exceeds n (pos m) = ltb m n
exceeds n (negsuc m) = true

-- `n == z`
abbrev pub is_nat : ℕ → ℤ → Bool
is_nat n (pos m) = n == m
is_nat n (negsuc m) = false

-- The number itself, or 0 for a negative one.
abbrev pub pos_part : ℤ → ℕ
pos_part (pos n) = n
pos_part (negsuc n) = 0
