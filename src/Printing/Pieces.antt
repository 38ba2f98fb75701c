-- ===== src/Printing/Pieces.antt =====
-- What is left of a text that is cut, and of two texts one behind the other.
use study_c.Prelude.{
  ℕ, zero, suc, ◌-◌, ◌≤◌, ◌<◌, ◌≡◌, refl, ap, ◌∙◌, ◌⊎◌, inl, inr, [], ◌∷◌, ◌++◌, arith, Bytes, take,
  drop, length, c_str, snprintf_str, length-append, length-take, length-drop, c_str-c_str,
  Bool-cases, ◌==◌,
}

pub c_str-append : (a b : Bytes) → c_str a ≡ a → c_str (a ++ b) ≡ a ++ c_str b
unfolding c_str
c_str-append [] b h = refl
c_str-append (x ∷ xs) b h = ground (arith, c_str-append xs b)

pub take_nil : (n : ℕ) → take {A = ℕ} n [] ≡ []
unfolding take
take_nil zero = refl
take_nil (suc n) = refl

pub take-c_str : (b : Bytes) → take (length (c_str b)) b ≡ c_str b
unfolding c_str take
take-c_str [] = refl
take-c_str (x ∷ xs) = elim (Bool-cases (x == 0)) [
  | inl e ↦ rw e refl
  | inr e ↦ rw e (ap (λ t. x ∷ t) (take-c_str xs))
]

pub empty-c_str : (b : Bytes) → length b ≡ 0 → c_str b ≡ []
unfolding c_str
empty-c_str [] h = refl
empty-c_str (x ∷ xs) h = absurd (omega (arith, h))

pub c_str-joined : (a b : Bytes) → c_str a ≡ a → c_str (a ++ c_str b) ≡ a ++ c_str b
c_str-joined a b h = c_str-append a (c_str b) h ∙ ap (λ t. a ++ t) (c_str-c_str b)

pub lt_or_eq : (a b : ℕ) → a ≤ b → (a < b) ⊎ (a ≡ b)
lt_or_eq a b h = ground arith

pub take_zero : (b : Bytes) → take 0 b ≡ []
unfolding take
take_zero b = refl

pub take-append_le :
    (n : ℕ) (a b : Bytes) → length a ≤ n → take n (a ++ b) ≡ a ++ take (n - length a) b
unfolding take
take-append_le n [] b h = ap (λ k. take k b) (omega arith)
take-append_le zero (x ∷ xs) b h = absurd (omega arith)
take-append_le (suc n) (x ∷ xs) b h =
    ap (λ t. x ∷ t) (take-append_le n xs b (omega arith) ∙ ap (λ k. xs ++ take k b) (omega arith))

pub take-append_ge : (n : ℕ) (a b : Bytes) → n ≤ length a → take n (a ++ b) ≡ take n a
unfolding take
take-append_ge zero a b h = refl
take-append_ge (suc n) [] b h = absurd (omega arith)
take-append_ge (suc n) (x ∷ xs) b h = ap (λ t. x ∷ t) (take-append_ge n xs b (omega arith))

pub take-append_drop : (n : ℕ) (a : Bytes) → take n a ++ drop n a ≡ a
unfolding take drop
take-append_drop zero a = refl
take-append_drop (suc n) [] = refl
take-append_drop (suc n) (x ∷ xs) = ap (λ t. x ∷ t) (take-append_drop n xs)

pub length-snprintf_str :
    (dst src : Bytes) (n : ℕ) → n ≤ length dst → length (snprintf_str dst src n) ≡ length dst
unfolding snprintf_str
length-snprintf_str dst src zero h = refl
length-snprintf_str dst src (suc n) h =
    let s = take n (c_str src) in
    omega (
      arith,
      length-append s (0 ∷ drop (suc (length s)) dst),
      length-drop (suc (length s)) dst,
      length-take n (c_str src),
    )
