-- ===== src/Registry/Array.antt =====
-- The array of slots: stores into it, and the loop of handler_unregister that closes a gap.
use study_c.Prelude.{
  ℕ, zero, suc, ◌+◌, ◌≤◌, ◌<◌, ◌≡◌, refl, ap, none, some, List, [], ◌∷◌, ◌++◌, arith, length,
  get_elem?, set, take, length-set,
}
use study_c.Registry.{Entry, copy_down, shift_down}

module _ {ℓ} {A : Type ℓ} where
  unfoldable pub remove_at : List A → ℕ → List A
  remove_at [] i = []
  remove_at (x ∷ xs) zero = xs
  remove_at (x ∷ xs) (suc i) = x ∷ remove_at xs i

  pub take-set : (n : ℕ) (xs : List A) (i : ℕ) (v : A) → take n (set xs i v) ≡ set (take n xs) i v
  unfolding take
  take-set zero xs i v = refl
  take-set (suc n) [] i v = refl
  take-set (suc n) (x ∷ xs) zero v = refl
  take-set (suc n) (x ∷ xs) (suc i) v = ap (λ t. x ∷ t) (take-set n xs i v)

  pub take-set_next :
      (n : ℕ) (xs : List A) (v : A)
      → n < length xs
      → take (suc n) (set xs n v) ≡ take n xs ++ (v ∷ [])
  unfolding take
  take-set_next n [] v h = absurd (omega arith)
  take-set_next zero (x ∷ xs) v h = refl
  take-set_next (suc n) (x ∷ xs) v h = ap (λ t. x ∷ t) (take-set_next n xs v (omega arith))

  pub get_elem?-take :
      (n : ℕ) (xs : List A) (i : ℕ) → i < n → get_elem? (take n xs) i ≡ get_elem? xs i
  unfolding take
  get_elem?-take zero xs i h = absurd (omega arith)
  get_elem?-take (suc n) [] i h = refl
  get_elem?-take (suc n) (x ∷ xs) zero h = refl
  get_elem?-take (suc n) (x ∷ xs) (suc i) h = get_elem?-take n xs i (omega arith)

  pub get_elem?_of_lt : (xs : List A) (i : ℕ) → i < length xs → (a : A) × (get_elem? xs i ≡ some a)
  get_elem?_of_lt [] i h = absurd (omega arith)
  get_elem?_of_lt (x ∷ xs) zero h = (x, refl)
  get_elem?_of_lt (x ∷ xs) (suc i) h = get_elem?_of_lt xs i (omega arith)

module _ {H C : Type 0} where
  length-copy_down : (es : List (Entry H C)) (j : ℕ) → length (copy_down es j) ≡ length es
  length-copy_down es j =
      elim (get_elem? es (suc j))
        as (λ o. length (elim o [ none ↦ es | some e ↦ set es j e ]) ≡ length es) [
          | none ↦ refl
          | some e ↦ length-set es j e
        ]

  pub length-shift_down : (es : List (Entry H C)) (j k : ℕ) → length (shift_down es j k) ≡ length es
  unfolding shift_down
  length-shift_down es j zero = refl
  length-shift_down es j (suc k) =
      omega (arith, length-shift_down (copy_down es j) (suc j) k, length-copy_down es j)

  copy_down-cons :
      (e : Entry H C) (es : List (Entry H C)) (j : ℕ)
      → copy_down (e ∷ es) (suc j) ≡ e ∷ copy_down es j
  copy_down-cons e es j = ground arith

  shift_down-cons :
      (e : Entry H C) (es : List (Entry H C)) (j k : ℕ)
      → shift_down (e ∷ es) (suc j) k ≡ e ∷ shift_down es j k
  unfolding shift_down
  shift_down-cons e es j zero = refl
  shift_down-cons e es j (suc k) =
      rw (copy_down-cons e es j) (shift_down-cons e (copy_down es j) (suc j) k)

  take-shift_down_zero :
      (e : Entry H C) (es : List (Entry H C)) (k : ℕ)
      → k ≤ length es
      → take k (shift_down (e ∷ es) 0 k) ≡ take k es
  unfolding take shift_down
  take-shift_down_zero e es zero h = refl
  take-shift_down_zero e [] (suc k) h = absurd (omega arith)
  take-shift_down_zero e (x ∷ es) (suc k) h =
      rw (shift_down-cons x (x ∷ es) 0 k)
        (ap (λ t. x ∷ t) (take-shift_down_zero x es k (omega arith)))

  -- The loop removes slot `i` from the first `i + k + 1` slots.
  pub take-shift_down :
      (es : List (Entry H C)) (i k : ℕ)
      → i + k < length es
      → take (i + k) (shift_down es i k) ≡ remove_at (take (suc (i + k)) es) i
  unfolding take remove_at
  take-shift_down [] i k h = absurd (omega arith)
  take-shift_down (e ∷ es) zero k h =
      let e0 : 0 + k ≡ k = omega arith in rw e0 (take-shift_down_zero e es k (omega arith))
  take-shift_down (e ∷ es) (suc i) k h =
      let e1 : suc i + k ≡ suc (i + k) = omega arith in
      rw (e1, shift_down-cons e es i k) (ap (λ t. e ∷ t) (take-shift_down es i k (omega arith)))
