-- ===== src/Shm/Posix.antt =====
-- PosixSHM/src/shm_api.c: writing to and reading from the segment of the POSIX variant, whose
-- `message` has 256 bytes. The lines are those of SHM/src/shm_api.c.
use study_c.Prelude.{
  ℕ, ◌≤◌, ◌≡◌, refl, sym, ap, ◌∙◌, Bool, true, false, Option, none, some, Bytes, c_str, take, ℤ,
  arith, zero, suc, length, length-take, take_of_length_le, [], ◌∷◌, if◌then◌else◌, snprintf_str,
  ltb, ◌-◌,
}
use study_c.Shm.{
  Locking, acquired, owner_died, failed, SharedData, Read, status_of, max_payload_size,
}
use study_c.Shm
use study_c.Shm.RoundTrip.{read-write}

abbrev pub message_size : ℕ
message_size = 256

unfoldable pub safe_lock : Locking → Bool
safe_lock acquired = true
safe_lock owner_died = true
safe_lock failed = false

unfoldable pub write : Option SharedData → Locking → ℤ → Bytes → Bool × Option SharedData
write none lock status msg = (false, none)
write (some shared) lock status msg =
    if safe_lock lock
    then (
      true,
      some (record shared {
        status_code = status;
        message = snprintf_str shared.message msg message_size;
      }),
    )
    else (false, some shared)

-- The out-pointers as in `Shm.read`.
abbrev pub read_msg : Bool → SharedData → Option Bytes → Read
read_msg want shared none = record { done = true; status = status_of want shared; msg = none }
read_msg want shared (some out) =
    if ltb message_size 1
    then record { done = false; status = status_of want shared; msg = some out }
    else record {
      done = true;
      status = status_of want shared;
      msg = some (snprintf_str out (take (message_size - 1) shared.message) message_size);
    }

unfoldable pub read : Option SharedData → Locking → Bool → Option Bytes → Read
read none lock want out = record { done = false; status = none; msg = out }
read (some shared) lock want out =
    if safe_lock lock
    then read_msg want shared out
    else record { done = false; status = none; msg = out }

write-eq :
    (s : Option SharedData) (l : Locking) (status : ℤ) (msg : Bytes)
    → write s l status msg ≡ Shm.write message_size s l status msg
unfolding write safe_lock Shm.write Shm.safe_lock
write-eq none l status msg = refl
write-eq (some s) acquired status msg = refl
write-eq (some s) owner_died status msg = refl
write-eq (some s) failed status msg = refl

read-eq :
    (s : Option SharedData) (l : Locking) (want : Bool) (out : Option Bytes)
    → read s l want out ≡ Shm.read message_size s l want out
unfolding read safe_lock Shm.read Shm.safe_lock
read-eq none l want out = refl
read-eq (some s) acquired want none = refl
read-eq (some s) acquired want (some out) = refl
read-eq (some s) owner_died want none = refl
read-eq (some s) owner_died want (some out) = refl
read-eq (some s) failed want out = refl

take-take-le : (n m : ℕ) (xs : Bytes) → n ≤ m → take n (take m xs) ≡ take n xs
unfolding take
take-take-le zero m xs h = refl
take-take-le (suc n) zero xs h = absurd (omega arith)
take-take-le (suc n) (suc m) [] h = refl
take-take-le (suc n) (suc m) (x ∷ xs) h = ap (λ t. x ∷ t) (take-take-le n m xs (omega arith))

-- A message as a reader of the POSIX variant and one of the System V variant get it.
abbrev pub Agree : Bytes → Read → Read → Type 0
Agree msg p v =
    (a b : Bytes) × (p.done ≡ true)
    × (v.done ≡ true)
    × (p.status ≡ v.status)
    × (p.msg ≡ some a)
    × (v.msg ≡ some b)
    × (c_str a ≡ take 255 (c_str b))
    × (length (c_str msg) ≤ 255 → c_str a ≡ c_str b)
    × (c_str a ≡ c_str b → length (c_str msg) ≤ 255)

held : (l : Locking) → safe_lock l ≡ true → Shm.safe_lock l ≡ true
unfolding safe_lock Shm.safe_lock
held acquired h = refl
held owner_died h = refl
held failed h = h

same_short :
    (a b s : Bytes)
    → a ≡ take 255 s
    → b ≡ take 1023 s
    → (length s ≤ 255 → a ≡ b) × (a ≡ b → length s ≤ 255)
same_short a b s e e' = (
  λ h. e ∙ take_of_length_le 255 s h ∙ sym (take_of_length_le 1023 s (omega (arith, h))) ∙ sym e',
  λ q. omega (arith, length-take 255 s, length-take 1023 s, ap length (sym e ∙ q ∙ e')),
)

-- How far the two variants of the shared memory agree: after a write with the same status and
-- message and then a read, with the locks held at last in both, both calls of the read succeed with
-- the same status, and the POSIX one gives the first 255 bytes of the other's string, whatever was
-- in the segments and the readers' buffers before. The two strings are the same exactly if the
-- message has at most 255 bytes before its first NUL.
pub variants-Agree :
    (s s' : SharedData) (l l' : Locking) (status : ℤ) (msg out out' : Bytes)
    → safe_lock l ≡ true
    → safe_lock l' ≡ true
    → Agree msg (read (write (some s) l status msg).1 l' true (some out)) (
        Shm.read max_payload_size
          (Shm.write max_payload_size (some s') l status msg).1
          l'
          true
          (some out'))
variants-Agree s s' l l' status msg out out' h h' =
    let (w, (d, t, (a, e, c))) = read-write 255 s l l' status msg out (held l h) (held l' h') in
    let (w', (d', t', (a', e', c'))) =
      read-write 1023 s' l l' status msg out' (held l h) (held l' h') in
    rw
      (
        write-eq (some s) l status msg,
        read-eq (Shm.write message_size (some s) l status msg).1 l' true (some out),
      )
      (
        a,
        a',
        d,
        d',
        t ∙ sym t',
        e,
        e',
        c ∙ sym (ap (take 255) c' ∙ take-take-le 255 1023 (c_str msg) (omega arith)),
        (same_short (c_str a) (c_str a') (c_str msg) c c').0,
        (same_short (c_str a) (c_str a') (c_str msg) c c').1,
      )
