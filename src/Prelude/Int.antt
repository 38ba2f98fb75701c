-- ===== src/Prelude/Int.antt =====
-- The integers that the C functions return as codes, over the native numbers.
use Prim.Native.Nat.{ℕ}
use mathlib.Core.Bool.{Bool, true, false}
use study_c.Prelude.Tests.{◌==◌}

-- `negsuc n` is -(n + 1).
pub data ℤ : Type 0 where
  pos : ℕ → ℤ
  negsuc : ℕ → ℤ

-- The return codes 0, -1 and -3.
abbrev pub ret_ok : ℤ
ret_ok = pos 0

abbrev pub ret_err : ℤ
ret_err = negsuc 0

abbrev pub ret_internal : ℤ
ret_internal = negsuc 2

abbrev pub is_zero : ℤ → Bool
is_zero (pos n) = n == 0
is_zero (negsuc n) = false

abbrev pub is_negative : ℤ → Bool
is_negative (pos n) = false
is_negative (negsuc n) = true
