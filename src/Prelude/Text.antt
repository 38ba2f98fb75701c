-- ===== src/Prelude/Text.antt =====
-- C strings and the string functions of libc that the program calls.
-- A region of memory is a list of bytes; the string in it ends at the first NUL.
use Prim.Native.Nat.{ℕ, zero, suc, ◌≤◌}
use Prim.Native.Char.{code}
use Prim.Native.String.{String}
use mathlib.Core.Path.{◌≡◌, refl, ap}
use mathlib.Core.Logic.{inl, inr}
use mathlib.Core.Bool.{Bool, true, false, ◌&&◌}
use mathlib.Core.List.{List, [], ◌∷◌, ◌++◌}
use native.Mathlib.Omega.{arith}
use study_c.Prelude.Tests.{◌==◌, if◌then◌else◌, Bool-cases}
use study_c.Prelude.Lists.{
  length, take, drop, set, replicate, length-append, length-take, length-drop,
}

abbrev pub Bytes : Type 0
Bytes = List ℕ

-- The bytes of an ASCII literal, without its NUL.
abbrev pub codes : String → Bytes
codes String.[] = []
codes (String.◌∷◌ c s) = code c ∷ codes s

-- The string that a region of memory holds.
unfoldable pub c_str : Bytes → Bytes
c_str [] = []
c_str (x ∷ xs) = if x == 0 then [] else x ∷ c_str xs

unfoldable pub bytes_eq : Bytes → Bytes → Bool
bytes_eq [] [] = true
bytes_eq (x ∷ xs) (y ∷ ys) = x == y && bytes_eq xs ys
bytes_eq _ _ = false

-- `strcmp(a, b) == 0`
abbrev pub str_eq : Bytes → Bytes → Bool
str_eq a b = bytes_eq (c_str a) (c_str b)

-- The first `n` bytes of a string, filled up with NULs.
unfoldable pub pad : ℕ → Bytes → Bytes
pad zero xs = []
pad (suc n) [] = 0 ∷ pad n []
pad (suc n) (x ∷ xs) = x ∷ pad n xs

-- `strncpy(dst, src, n)`: what `dst` holds afterwards.
unfoldable pub strncpy : Bytes → Bytes → ℕ → Bytes
strncpy dst src n = pad n (c_str src) ++ drop n dst

-- `memcpy(dst, src, n)`: what `dst` holds afterwards.
unfoldable pub memcpy : Bytes → Bytes → ℕ → Bytes
memcpy dst src n = take n src ++ drop n dst

-- `snprintf(dst, n, "%s", src)` with `n` the size of `dst`: the string, cut to `n - 1` bytes, a
-- NUL, and the old bytes behind it.
unfoldable pub snprintf_str : Bytes → Bytes → ℕ → Bytes
snprintf_str dst src zero = dst
snprintf_str dst src (suc n) = let s = take n (c_str src) in s ++ (0 ∷ drop (suc (length s)) dst)

pub bytes_eq_sound : (a b : Bytes) → bytes_eq a b ≡ true → a ≡ b
unfolding bytes_eq
bytes_eq_sound [] [] h = refl
bytes_eq_sound [] (y ∷ ys) h = cc
bytes_eq_sound (x ∷ xs) [] h = cc
bytes_eq_sound (x ∷ xs) (y ∷ ys) h = ground (arith, bytes_eq_sound xs ys)

pub bytes_eq_refl : (a : Bytes) → bytes_eq a a ≡ true
unfolding bytes_eq
bytes_eq_refl [] = refl
bytes_eq_refl (x ∷ xs) = ground (arith, bytes_eq_refl xs)

pub bytes_eq_symm : (a b : Bytes) → bytes_eq a b ≡ bytes_eq b a
unfolding bytes_eq
bytes_eq_symm [] [] = refl
bytes_eq_symm [] (y ∷ ys) = refl
bytes_eq_symm (x ∷ xs) [] = refl
bytes_eq_symm (x ∷ xs) (y ∷ ys) = ground (arith, bytes_eq_symm xs ys)

pub c_str-c_str : (a : Bytes) → c_str (c_str a) ≡ c_str a
unfolding c_str
c_str-c_str [] = refl
c_str-c_str (x ∷ xs) = ground (arith, c_str-c_str xs)

pub length-pad : (n : ℕ) (xs : Bytes) → length (pad n xs) ≡ n
unfolding pad
length-pad zero xs = refl
length-pad (suc n) [] = ap suc (length-pad n [])
length-pad (suc n) (x ∷ xs) = ap suc (length-pad n xs)

pub length-strncpy :
    (dst src : Bytes) (n : ℕ) → n ≤ length dst → length (strncpy dst src n) ≡ length dst
unfolding strncpy
length-strncpy dst src n h = omega (
  arith,
  length-append (pad n (c_str src)) (drop n dst),
  length-pad n (c_str src),
  length-drop n dst,
)

pub length-memcpy :
    (dst src : Bytes) (n : ℕ)
    → n ≤ length dst
    → n ≤ length src
    → length (memcpy dst src n) ≡ length dst
unfolding memcpy
length-memcpy dst src n h k =
    omega (arith, length-append (take n src) (drop n dst), length-take n src, length-drop n dst)

-- Where the byte behind the copied ones is a NUL, the copy holds the string, cut to `n` bytes.
pub c_str-pad :
    (n : ℕ) (src r : Bytes) → c_str r ≡ [] → c_str (pad n (c_str src) ++ r) ≡ take n (c_str src)
unfolding pad c_str take
c_str-pad zero src r h = h
c_str-pad (suc n) [] r h = refl
c_str-pad (suc n) (x ∷ xs) r h = elim (Bool-cases (x == 0)) [
  | inl e ↦ rw e refl
  | inr e ↦ rw (e, e) (ap (λ t. x ∷ t) (c_str-pad n xs r h))
]

set-pad : (n : ℕ) (xs r : Bytes) → set (pad n xs ++ r) n 0 ≡ pad n xs ++ set r 0 0
unfolding pad
set-pad zero xs r = refl
set-pad (suc n) [] r = ap (λ t. 0 ∷ t) (set-pad n [] r)
set-pad (suc n) (x ∷ xs) r = ap (λ t. x ∷ t) (set-pad n xs r)

pub c_str-set_zero : (r : Bytes) → c_str (set r 0 0) ≡ []
unfolding c_str
c_str-set_zero [] = refl
c_str-set_zero (x ∷ xs) = refl

-- `strncpy(dst, src, n); dst[n] = 0;` leaves the string in `dst`, cut to `n` bytes.
pub c_str-set-strncpy :
    (dst src : Bytes) (n : ℕ) → c_str (set (strncpy dst src n) n 0) ≡ take n (c_str src)
unfolding strncpy
c_str-set-strncpy dst src n =
    rw (set-pad n (c_str src) (drop n dst))
      (c_str-pad n src (set (drop n dst) 0 0) (c_str-set_zero (drop n dst)))

c_str-drop-replicate : (n m : ℕ) → c_str (drop n (replicate m 0)) ≡ []
unfolding c_str drop replicate
c_str-drop-replicate zero zero = refl
c_str-drop-replicate zero (suc m) = refl
c_str-drop-replicate (suc n) zero = refl
c_str-drop-replicate (suc n) (suc m) = c_str-drop-replicate n m

-- So does `strncpy` into cleared memory.
pub c_str-strncpy :
    (src : Bytes) (n m : ℕ) → c_str (strncpy (replicate m 0) src n) ≡ take n (c_str src)
unfolding strncpy
c_str-strncpy src n m = c_str-pad n src (drop n (replicate m 0)) (c_str-drop-replicate n m)

pub length-c_str-le : (a : Bytes) → length (c_str a) ≤ length a
unfolding c_str
length-c_str-le [] = omega arith
length-c_str-le (x ∷ xs) = ground (arith, length-c_str-le xs)

pub c_str-take : (n : ℕ) (a : Bytes) → c_str (take n (c_str a)) ≡ take n (c_str a)
unfolding c_str take
c_str-take zero a = refl
c_str-take (suc n) [] = refl
c_str-take (suc n) (x ∷ xs) = elim (Bool-cases (x == 0)) [
  | inl e ↦ rw e refl
  | inr e ↦ rw (e, e) (ap (λ t. x ∷ t) (c_str-take n xs))
]

c_str-append_zero : (a r : Bytes) → c_str a ≡ a → c_str (a ++ (0 ∷ r)) ≡ a
unfolding c_str
c_str-append_zero [] r h = refl
c_str-append_zero (x ∷ xs) r h = ground (arith, c_str-append_zero xs r)

-- `snprintf` with room for a byte always leaves a terminated string.
pub c_str-snprintf_str :
    (dst src : Bytes) (n : ℕ) → c_str (snprintf_str dst src (suc n)) ≡ take n (c_str src)
unfolding snprintf_str
c_str-snprintf_str dst src n = c_str-append_zero (take n (c_str src)) _ (c_str-take n src)

take-take : (n : ℕ) (xs ys : Bytes) → n ≤ length xs → take n (take n xs ++ ys) ≡ take n xs
unfolding take
take-take zero xs ys h = refl
take-take (suc n) [] ys h = absurd (omega arith)
take-take (suc n) (x ∷ xs) ys h = ap (λ t. x ∷ t) (take-take n xs ys (omega arith))

-- The copied bytes are the source's.
pub take-memcpy :
    (dst src : Bytes) (n : ℕ) → n ≤ length src → take n (memcpy dst src n) ≡ take n src
unfolding memcpy
take-memcpy dst src n h = take-take n src (drop n dst) h

-- A NUL written behind some bytes does not change the string that they start.
pub c_str-append_nul : (xs ys : Bytes) → c_str (xs ++ (0 ∷ ys)) ≡ c_str xs
unfolding c_str
c_str-append_nul [] ys = refl
c_str-append_nul (x ∷ xs) ys = ground (arith, c_str-append_nul xs ys)
