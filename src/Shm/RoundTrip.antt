-- ===== src/Shm/RoundTrip.antt =====
-- What is written to the segment is what is read from it.
use study_c.Prelude.{
  ℕ, zero, suc, ◌-◌, ◌≤◌, ◌≡◌, refl, ap, ◌∙◌, Bool, true, false, Option, none, some, [], ◌∷◌, arith,
  Bytes, snprintf_str, c_str, take, length, ℤ, c_str-snprintf_str, Bool-cases, ltb_of_le,
  take_of_length_le, length-take, inl, inr, ◌==◌,
}
use study_c.Shm.{Locking, SharedData, safe_lock, write, read, Read}

-- A string that ends by the `n`-th byte is seen whole within the first `n + 1` bytes or more.
c_str-take_enough : (n : ℕ) (xs : Bytes) → length (c_str xs) ≤ n → c_str (take n xs) ≡ c_str xs
unfolding c_str take
c_str-take_enough zero [] h = refl
c_str-take_enough zero (x ∷ xs) h = elim (Bool-cases (x == 0)) [
  | inl e ↦ rw e refl
  | inr e ↦ absurd (ground arith)
]
c_str-take_enough (suc n) [] h = refl
c_str-take_enough (suc n) (x ∷ xs) h = elim (Bool-cases (x == 0)) [
  | inl e ↦ rw e refl
  | inr e ↦ rw e (ap (λ t. x ∷ t) (c_str-take_enough n xs (ground arith)))
]

-- The string that a read hands out, for a message that is terminated within the field.
pub c_str-read_msg :
    (n : ℕ) (m out : Bytes)
    → length (c_str m) ≤ n
    → c_str (snprintf_str out (take n m) (suc n)) ≡ c_str m
c_str-read_msg n m out short =
    c_str-snprintf_str out (take n m) n
    ∙ ap (take n) (c_str-take_enough n m short)
    ∙ take_of_length_le n (c_str m) short

-- The message that a read hands out after a write, as a string.
read_back :
    (n : ℕ) (old out msg : Bytes)
    → c_str (snprintf_str out (take n (snprintf_str old msg (suc n))) (suc n)) ≡ take n (c_str msg)
read_back n old out msg =
    let e : c_str (snprintf_str old msg (suc n)) ≡ take n (c_str msg) =
      c_str-snprintf_str old msg n in
    c_str-read_msg n (snprintf_str old msg (suc n)) out
      (rw e (omega (arith, length-take n (c_str msg))))
    ∙ e

-- What a read gives its caller after `status` and `msg` were written.
abbrev pub ReadsBack : ℕ → ℤ → Bytes → Read → Type 0
ReadsBack n status msg r =
    (r.done ≡ true)
    × (r.status ≡ some status)
    × ((out : Bytes) × (r.msg ≡ some out) × (c_str out ≡ take n (c_str msg)))

-- With a message field of `n + 1` bytes, and both locks held at last, a write and then a read give
-- back the status and the message, cut to its first `n` bytes and terminated; the old contents of
-- the segment and of the reader's buffer do not matter.
pub read-write :
    (n : ℕ) (shared : SharedData) (l l' : Locking) (status : ℤ) (msg out : Bytes)
    → safe_lock l ≡ true
    → safe_lock l' ≡ true
    → ((write (suc n) (some shared) l status msg).0 ≡ true)
      × ReadsBack n status msg
          (read (suc n) (write (suc n) (some shared) l status msg).1 l' true (some out))
unfolding write read
read-write n shared l l' status msg out h h' =
    let p : suc n - 1 ≡ n = omega arith in
    rw (h, h', ltb_of_le (suc n) 1 (omega arith), p)
      (refl, (refl, refl, (_, refl, read_back n shared.message out msg)))

-- Without the lock nothing is written and nothing is read, and the caller is told so.
pub unlocked_fails :
    (size : ℕ) (shared : SharedData) (status : ℤ) (msg : Bytes) (want : Bool) (out : Option Bytes)
    → (write size (some shared) Locking.failed status msg ≡ (false, some shared))
      × (read size (some shared) Locking.failed want out
          ≡ record { done = false; status = none; msg = out })
unfolding write read safe_lock
unlocked_fails size shared status msg want out = (refl, refl)
