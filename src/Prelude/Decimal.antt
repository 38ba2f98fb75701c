-- ===== src/Prelude/Decimal.antt =====
-- The decimal conversions of printf.
use Prim.Native.Nat.{ℕ, zero, suc, ◌+◌, ◌/◌, ◌%◌}
use mathlib.Core.Bool.{true, false}
use mathlib.Core.List.{[], ◌∷◌, ◌++◌}
use study_c.Prelude.Tests.{ltb}
use study_c.Prelude.Text.{Bytes}
use study_c.Prelude.Int.{ℤ, pos, negsuc}

-- The digits of a number below 10^fuel.
abbrev pub digits : ℕ → ℕ → Bytes
digits zero n = []
digits (suc fuel) n = elim (ltb n 10) [
  | true ↦ (48 + n) ∷ []
  | false ↦ digits fuel (n / 10) ++ ((48 + n % 10) ∷ [])
]

-- `%u` and `%lu`: a number of 64 bits has at most 20 digits.
abbrev pub unsigned : ℕ → Bytes
unsigned n = digits 20 n

-- `%d` and `%ld`: a `long` has at most 19 digits.
abbrev pub decimal : ℤ → Bytes
decimal (pos n) = digits 20 n
decimal (negsuc n) = 45 ∷ digits 20 (n + 1)
