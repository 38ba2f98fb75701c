-- ===== src/Shm/Attach/Moves.antt =====
-- What a step of a process does to the segments' mutexes.
use study_c.Prelude.{
  ℕ, ◌≡◌, refl, sym, ap, ◌⊎◌, inl, inr, Bool, true, false, Option, none, some, arith, ◌==◌,
  Bool-cases, Option-cases,
}
use study_c.Shm.Attach.{
  Answer, ok, error, System, Stage, outside, exists, opened, measured, mapped, attached, failed,
  retry, create, mutex_init, set_size, remove, system_v_init, posix_init, close, system_v_destroy,
  posix_destroy, Variant, system_v, posix, Action, going_on, closing, destroying, retrying, act,
}

-- The segment that a process has created, while its mutex is not initialised.
abbrev pub creating : Stage → Option ℕ
creating (opened true i) = some i
creating (measured true i) = some i
creating (mapped true i) = some i
creating _ = none

-- What a step does to the segments' mutexes: nothing, a new segment, or an initialisation.
pub data Moves (s : System) (st : Stage) : System → Stage → Type 0 where
  kept :
      {s' : System} {st' : Stage}
      → s'.created ≡ s.created
      → ((i : ℕ) → (s'.segments i).inits ≡ (s.segments i).inits)
      → (creating st' ≡ none) ⊎ (creating st' ≡ creating st)
      → Moves s st s' st'
  made : (b : Bool) → Moves s st (create b s).0 (create b s).1
  readied : {i : ℕ} → creating st ≡ some i → Moves s st (mutex_init i s) (attached true i)

pub eq_of : (a b : ℕ) → (a == b) ≡ true → a ≡ b
eq_of a b h = ground arith

size_kept : (i j : ℕ) (s : System) → ((set_size i s).segments j).inits ≡ (s.segments j).inits
size_kept i j s = elim (Bool-cases (j == i)) [
  | inl e ↦ rw e (ap (λ k. (s.segments k).inits) (sym (eq_of j i e)))
  | inr e ↦ rw e refl
]

abbrev same :
    {s : System} {st st' : Stage}
    → (creating st' ≡ none) ⊎ (creating st' ≡ creating st)
    → Moves s st s st'
same h = kept refl (λ i. refl) h

-- The exclusive call and the other, by what the name stands for.
open_first-Moves :
    (b : Bool) (s : System) (o : Option ℕ)
    → let r : System × Stage = elim o [ none ↦ create b s | some i ↦ (s, exists) ] in
      Moves s outside r.0 r.1
open_first-Moves b s none = made b
open_first-Moves b s (some i) = same (inl refl)

open_again-Moves :
    (s : System) (o : Option ℕ)
    → let r : System × Stage = elim o [ none ↦ (s, failed) | some i ↦ (s, opened false i) ] in
      Moves s exists r.0 r.1
open_again-Moves s none = same (inl refl)
open_again-Moves s (some i) = same (inl refl)

system_v_init-Moves :
    (a : Answer) (s : System) (st : Stage)
    → Moves s st (system_v_init a s st).0 (system_v_init a s st).1
unfolding system_v_init
system_v_init-Moves ok s outside = open_first-Moves true s s.name
system_v_init-Moves error s outside = same (inl refl)
system_v_init-Moves ok s exists = open_again-Moves s s.name
system_v_init-Moves error s exists = same (inl refl)
system_v_init-Moves ok s (opened true i) = same (inr refl)
system_v_init-Moves ok s (opened false i) = same (inr refl)
system_v_init-Moves error s (opened creator i) = same (inl refl)
system_v_init-Moves a s (mapped true i) = readied refl
system_v_init-Moves a s (mapped false i) = same (inl refl)
system_v_init-Moves a s (measured creator i) = same (inr refl)
system_v_init-Moves a s (attached creator i) = same (inr refl)
system_v_init-Moves a s failed = same (inr refl)

posix_init-Moves :
    (a : Answer) (s : System) (st : Stage) → Moves s st (posix_init a s st).0 (posix_init a s st).1
unfolding posix_init
posix_init-Moves ok s outside = open_first-Moves false s s.name
posix_init-Moves error s outside = same (inl refl)
posix_init-Moves ok s exists = open_again-Moves s s.name
posix_init-Moves error s exists = same (inl refl)
posix_init-Moves ok s (opened true i) = kept refl (λ j. size_kept i j s) (inr refl)
posix_init-Moves error s (opened true i) = kept refl (λ j. refl) (inl refl)
posix_init-Moves ok s (opened false i) = elim (Bool-cases (s.segments i).sized) [
  | inl e ↦ rw e (same (inl refl))
  | inr e ↦ rw e (same (inl refl))
]
posix_init-Moves error s (opened false i) = same (inl refl)
posix_init-Moves ok s (measured true i) = same (inr refl)
posix_init-Moves ok s (measured false i) = same (inr refl)
posix_init-Moves error s (measured creator i) = same (inl refl)
posix_init-Moves a s (mapped true i) = readied refl
posix_init-Moves a s (mapped false i) = same (inl refl)
posix_init-Moves a s (attached creator i) = same (inr refl)
posix_init-Moves a s failed = same (inr refl)

remove_kept :
    (i : ℕ) (s : System) → ((remove i s).segments ≡ s.segments) × ((remove i s).created ≡ s.created)
remove_kept i s = elim (Option-cases s.name) [
  | inl e ↦ rw (e, remove) (refl, refl)
  | inr (j, e) ↦ elim (Bool-cases (j == i)) [
    | inl h ↦ rw (e, remove, h) (refl, refl)
    | inr h ↦ rw (e, remove, h) (refl, refl)
  ]
]

close-Moves : (s : System) (st : Stage) → Moves s st (close s st).0 (close s st).1
unfolding close
close-Moves s (attached creator i) = same (inl refl)
close-Moves s outside = same (inr refl)
close-Moves s exists = same (inr refl)
close-Moves s (opened creator i) = same (inr refl)
close-Moves s (measured creator i) = same (inr refl)
close-Moves s (mapped creator i) = same (inr refl)
close-Moves s failed = same (inr refl)

system_v_destroy-Moves :
    (s : System) (st : Stage) → Moves s st (system_v_destroy s st).0 (system_v_destroy s st).1
unfolding system_v_destroy
system_v_destroy-Moves s (attached true i) =
    kept (remove_kept i s).1 (λ j. ap (λ g. (g j).inits) (remove_kept i s).0) (inl refl)
system_v_destroy-Moves s (attached false i) = same (inl refl)
system_v_destroy-Moves s outside = same (inr refl)
system_v_destroy-Moves s exists = same (inr refl)
system_v_destroy-Moves s (opened creator i) = same (inr refl)
system_v_destroy-Moves s (measured creator i) = same (inr refl)
system_v_destroy-Moves s (mapped creator i) = same (inr refl)
system_v_destroy-Moves s failed = same (inr refl)

posix_destroy-Moves :
    (s : System) (st : Stage) → Moves s st (posix_destroy s st).0 (posix_destroy s st).1
unfolding posix_destroy
posix_destroy-Moves s (attached true i) = kept refl (λ j. refl) (inl refl)
posix_destroy-Moves s (attached false i) = same (inl refl)
posix_destroy-Moves s outside = same (inr refl)
posix_destroy-Moves s exists = same (inr refl)
posix_destroy-Moves s (opened creator i) = same (inr refl)
posix_destroy-Moves s (measured creator i) = same (inr refl)
posix_destroy-Moves s (mapped creator i) = same (inr refl)
posix_destroy-Moves s failed = same (inr refl)

retry-Moves : (s : System) (st : Stage) → Moves s st (retry s st).0 (retry s st).1
retry-Moves s failed = same (inl refl)
retry-Moves s outside = same (inr refl)
retry-Moves s exists = same (inr refl)
retry-Moves s (opened creator i) = same (inr refl)
retry-Moves s (measured creator i) = same (inr refl)
retry-Moves s (mapped creator i) = same (inr refl)
retry-Moves s (attached creator i) = same (inr refl)

pub act-Moves :
    (v : Variant) (a : Action) (s : System) (st : Stage)
    → Moves s st (act v a s st).0 (act v a s st).1
unfolding act
act-Moves system_v (going_on a) s st = system_v_init-Moves a s st
act-Moves posix (going_on a) s st = posix_init-Moves a s st
act-Moves v closing s st = close-Moves s st
act-Moves system_v destroying s st = system_v_destroy-Moves s st
act-Moves posix destroying s st = posix_destroy-Moves s st
act-Moves v retrying s st = retry-Moves s st
