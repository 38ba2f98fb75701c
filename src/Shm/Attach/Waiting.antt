-- ===== src/Shm/Attach/Waiting.antt =====
-- PosixSHM/src/shm_api.c: the loop of shm_api_init that waits for the segment's size, when the
-- creator has failed.
use study_c.Prelude.{
  ℕ, ◌+◌, ◌<◌, ◌≡◌, ◌≢◌, refl, sym, ap, ◌∙◌, ◌⊎◌, inl, inr, Bool, true, false, Option, none, some,
  List, [], ◌∷◌, arith, ◌==◌, Bool-cases,
}
use study_c.Shm.Attach.Moves.{creating, Moves, kept, made, readied, act-Moves, eq_of}
use study_c.Shm.Attach.Once.{update-cases, kept-creating}
use study_c.Shm.Attach.{
  Answer, ok, error, Segment, System, Stage, outside, exists, opened, measured, mapped, attached,
  failed, create, update, posix_init, close, posix_destroy, posix, Action, going_on, closing,
  destroying, retrying, act, World, world_step, run,
}

-- A segment's size is unknown, it has no creator any more, and process p waits for it.
pub record IsStuck (p i : ℕ) (w : World) : Type 0 where
  pub waits : w.stage p ≡ opened false i
  pub unsized : (w.system.segments i).sized ≡ false
  pub known : i < w.system.created
  pub orphaned : (q : ℕ) → creating (w.stage q) ≢ some i

abbrev sized : ℕ → System → Bool
sized i s = (s.segments i).sized

other_sized :
    (i j : ℕ) (f : Segment → Segment) (s : System)
    → i ≢ j
    → (update s.segments j (f (s.segments j)) i).sized ≡ sized i s
other_sized i j f s n = elim (Bool-cases (i == j)) [
  | inl e ↦ absurd (n (eq_of i j e))
  | inr e ↦ rw e refl
]

create-sized : (i : ℕ) (b : Bool) (s : System) → i < s.created → sized i (create b s).0 ≡ sized i s
create-sized i b s h = elim (Bool-cases (i == s.created)) [
  | inl e ↦ absurd (ground (arith, e))
  | inr e ↦ rw (e, sized) refl
]

open_first-sized :
    (i : ℕ) (s : System) (o : Option ℕ)
    → i < s.created
    → let r : System × Stage = elim o [ none ↦ create false s | some j ↦ (s, exists) ] in
      sized i r.0 ≡ sized i s
open_first-sized i s none h = create-sized i false s h
open_first-sized i s (some j) h = refl

open_again-sized :
    (i : ℕ) (s : System) (o : Option ℕ)
    → let r : System × Stage = elim o [ none ↦ (s, failed) | some j ↦ (s, opened false j) ] in
      sized i r.0 ≡ sized i s
open_again-sized i s none = refl
open_again-sized i s (some j) = refl

-- Only a segment's creator gives it its size.
posix_init-sized :
    (i : ℕ) (a : Answer) (s : System) (st : Stage)
    → creating st ≢ some i
    → i < s.created
    → sized i (posix_init a s st).0 ≡ sized i s
unfolding posix_init
posix_init-sized i ok s outside n h = open_first-sized i s s.name h
posix_init-sized i error s outside n h = refl
posix_init-sized i ok s exists n h = open_again-sized i s s.name
posix_init-sized i error s exists n h = refl
posix_init-sized i ok s (opened true j) n h =
    other_sized i j (λ g. record g { sized = true }) s (λ e. n (ap some (sym e)))
posix_init-sized i error s (opened true j) n h = refl
posix_init-sized i ok s (opened false j) n h = refl
posix_init-sized i error s (opened false j) n h = refl
posix_init-sized i ok s (measured creator j) n h = refl
posix_init-sized i error s (measured creator j) n h = refl
posix_init-sized i a s (mapped true j) n h =
    other_sized i j (λ g. record g { inits = g.inits + 1 }) s (λ e. n (ap some (sym e)))
posix_init-sized i a s (mapped false j) n h = refl
posix_init-sized i a s (attached creator j) n h = refl
posix_init-sized i a s failed n h = refl

-- The other functions leave the sizes alone.
close-sized : (i : ℕ) (s : System) (st : Stage) → sized i (close s st).0 ≡ sized i s
unfolding close
close-sized i s st = ground arith

destroy-sized : (i : ℕ) (s : System) (st : Stage) → sized i (posix_destroy s st).0 ≡ sized i s
unfolding posix_destroy
destroy-sized i s st = ground arith

act-sized :
    (i : ℕ) (a : Action) (s : System) (st : Stage)
    → creating st ≢ some i
    → i < s.created
    → sized i (act posix a s st).0 ≡ sized i s
unfolding act
act-sized i (going_on a) s st n h = posix_init-sized i a s st n h
act-sized i closing s st n h = close-sized i s st
act-sized i destroying s st n h = destroy-sized i s st
act-sized i retrying s st n h = ground arith

Moves-orphaned :
    (w : World) (q i : ℕ) (s : System) (st : Stage)
    → Moves w.system (w.stage q) s st
    → i < w.system.created
    → ((r : ℕ) → creating (w.stage r) ≢ some i)
    → (r : ℕ) → creating (update w.stage q st r) ≢ some i
Moves-orphaned w q i s st (kept c n h) k o r e = o r (kept-creating w.stage q st h r i e)
Moves-orphaned w q i s st (made b) k o r e = elim (update-cases w.stage q st r) [
  | inl (e', u) ↦ absurd (ground (arith, ap creating u, e, k))
  | inr (e', u) ↦ o r (ap creating (sym u) ∙ e)
]
Moves-orphaned w q i s st (readied c) k o r e = o r (kept-creating w.stage q st (inl refl) r i e)

Moves-known :
    (i : ℕ) (s : System) (st : Stage) (s' : System) (st' : Stage)
    → Moves s st s' st'
    → i < s.created
    → i < s'.created
Moves-known i s st s' st' (kept c n h) k = omega (arith, c, k)
Moves-known i s st s' st' (made b) k = omega (arith, k)
Moves-known i s st s' st' (readied c) k = k

-- The process goes on, and fstat answers it.
abbrev pub Patient : ℕ → List (ℕ × Action) → Type 0
Patient p [] = Unit {0}
Patient p ((q, a) ∷ steps) = ((q ≢ p) ⊎ (a ≡ going_on ok)) × Patient p steps

one_round :
    (i : ℕ) (a : Action) (s : System) (st : Stage)
    → a ≡ going_on ok
    → st ≡ opened false i
    → (s.segments i).sized ≡ false
    → (act posix a s st).1 ≡ opened false i
unfolding act posix_init
one_round i a s st e h u =
    ap (λ b. (act posix b s st).1) e ∙ ap (λ t. (act posix (going_on ok) s t).1) h ∙ rw u refl

still_waits :
    (p i q : ℕ) (a : Action) (w : World)
    → IsStuck p i w
    → (q ≢ p) ⊎ (a ≡ going_on ok)
    → (world_step posix q a w).stage p ≡ opened false i
unfolding world_step
still_waits p i q a w k h = elim (Bool-cases (p == q)) [
  | inl e ↦ elim h [
    | inl n ↦ absurd (n (sym (eq_of p q e)))
    | inr f ↦
        rw e (
          one_round i a w.system (w.stage q) f (ap w.stage (sym (eq_of p q e)) ∙ k.waits) k.unsized)
  ]
  | inr e ↦ rw e k.waits
]

step-IsStuck :
    (p i q : ℕ) (a : Action) (w : World)
    → IsStuck p i w
    → (q ≢ p) ⊎ (a ≡ going_on ok)
    → IsStuck p i (world_step posix q a w)
unfolding world_step
step-IsStuck p i q a w k h =
    let m = act-Moves posix a w.system (w.stage q) in
    record {
      waits = still_waits p i q a w k h;
      unsized = act-sized i a w.system (w.stage q) (k.orphaned q) k.known ∙ k.unsized;
      known = Moves-known i w.system (w.stage q) _ _ m k.known;
      orphaned = Moves-orphaned w q i _ _ m k.known k.orphaned;
    }

-- Where a process waits for the size of a segment that has none, and no process is left that
-- creates it (the creator's ftruncate has failed), the process waits for ever: it is still in the
-- loop after any steps of any processes, if it does nothing but go on and its fstat succeeds.
pub waits_for_ever :
    (p i : ℕ) (w : World) (steps : List (ℕ × Action))
    → IsStuck p i w
    → Patient p steps
    → (run posix steps w).stage p ≡ opened false i
unfolding run
waits_for_ever p i w [] k h = k.waits
waits_for_ever p i w ((q, a) ∷ steps) k h =
    waits_for_ever p i (world_step posix q a w) steps (step-IsStuck p i q a w k h.0) h.1
