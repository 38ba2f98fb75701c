-- ===== src/Shm/Attach/Once.antt =====
-- No segment's mutex is initialised twice.
use study_c.Prelude.{
  ℕ, ◌+◌, ◌≤◌, ◌<◌, ◌≡◌, refl, sym, ap, ◌∙◌, ◌⊎◌, ◌≢◌, inl, inr, Bool, true, none, some, List, [],
  ◌∷◌, arith, ◌==◌, Bool-cases,
}
use study_c.Shm.Attach.Moves.{creating, Moves, kept, made, readied, act-Moves, eq_of}
use study_c.Shm.Attach.{
  System, Stage, opened, attached, update, create, mutex_init, Variant, Action, World, world_step,
  run, at_start,
}

-- At most one process is between the creation of a segment and its mutex's initialisation, which
-- has not happened then.
pub record IsOnce (w : World) : Type 0 where
  pub once : (i : ℕ) → (w.system.segments i).inits ≤ 1
  pub fresh : (i : ℕ) → w.system.created ≤ i → (w.system.segments i).inits ≡ 0
  pub known : (p i : ℕ) → creating (w.stage p) ≡ some i → i < w.system.created
  pub pending : (p i : ℕ) → creating (w.stage p) ≡ some i → (w.system.segments i).inits ≡ 0
  pub alone : (p q i : ℕ) → creating (w.stage p) ≡ some i → creating (w.stage q) ≡ some i → p ≡ q

abbrev pub moved : World → ℕ → System → Stage → World
moved w p s st = record { system = s; stage = update w.stage p st }

-- The stage of a process behind a step of process p: the new one, or as it was.
pub update-cases :
    (f : ℕ → Stage) (p : ℕ) (st : Stage) (q : ℕ)
    → ((q ≡ p) × (update f p st q ≡ st)) ⊎ ((q ≢ p) × (update f p st q ≡ f q))
update-cases f p st q = elim (Bool-cases (q == p)) [
  | inl e ↦ inl (eq_of q p e, rw e refl)
  | inr e ↦ inr (λ h. ground (arith, e, h), rw e refl)
]

-- Who creates behind a step that starts no creation did so before.
pub kept-creating :
    (f : ℕ → Stage) (p : ℕ) (st : Stage)
    → (creating st ≡ none) ⊎ (creating st ≡ creating (f p))
    → (q i : ℕ) → creating (update f p st q) ≡ some i
    → creating (f q) ≡ some i
kept-creating f p st h q i c = elim (update-cases f p st q) [
  | inl (e, u) ↦ elim h [
    | inl n ↦ absurd (ground (arith, c, ap creating u, n))
    | inr k ↦ ap (λ r. creating (f r)) e ∙ sym k ∙ ap creating (sym u) ∙ c
  ]
  | inr (e, u) ↦ ap creating (sym u) ∙ c
]

abbrev started : World → ℕ → Bool → World
started w p b = moved w p (create b w.system).0 (create b w.system).1

kept-IsOnce :
    (w : World) (p : ℕ) (s : System) (st : Stage)
    → s.created ≡ w.system.created
    → ((i : ℕ) → (s.segments i).inits ≡ (w.system.segments i).inits)
    → (creating st ≡ none) ⊎ (creating st ≡ creating (w.stage p))
    → IsOnce w
    → IsOnce (moved w p s st)
kept-IsOnce w p s st c n h o =
    let before = kept-creating w.stage p st h in
    record {
      once = λ i. omega (arith, n i, o.once i);
      fresh = λ i k. omega (arith, n i, o.fresh i (omega (arith, k, c)));
      known = λ q i k. omega (arith, c, o.known q i (before q i k));
      pending = λ q i k. omega (arith, n i, o.pending q i (before q i k));
      alone = λ q r i k l. o.alone q r i (before q i k) (before r i l);
    }

-- Behind a creation: the new segment is p's, and the others are as before.
create-creating :
    (w : World) (p : ℕ) (b : Bool) (q i : ℕ)
    → creating ((started w p b).stage q) ≡ some i
    → ((q ≡ p) × (i ≡ w.system.created)) ⊎ (creating (w.stage q) ≡ some i)
create-creating w p b q i c = elim (update-cases w.stage p (opened true w.system.created) q) [
  | inl (e, u) ↦ inl (e, ground (arith, c, ap creating u))
  | inr (e, u) ↦ inr (ap creating (sym u) ∙ c)
]

create-inits :
    (w : World) (p : ℕ) (b : Bool) (i : ℕ)
    → IsOnce w
    → ((started w p b).system.segments i).inits ≡ (w.system.segments i).inits
create-inits w p b i o = elim (Bool-cases (i == w.system.created)) [
  | inl e ↦ rw e (sym (o.fresh i (ground (arith, e))))
  | inr e ↦ rw e refl
]

made-IsOnce : (w : World) (p : ℕ) (b : Bool) → IsOnce w → IsOnce (started w p b)
made-IsOnce w p b o = record {
  once = λ i. omega (arith, create-inits w p b i o, o.once i);
  fresh = λ i k. omega (arith, create-inits w p b i o, o.fresh i (omega (arith, k)));
  known = λ q i k. elim (create-creating w p b q i k) [
    | inl (e, n) ↦ omega (arith, n)
    | inr h ↦ omega (arith, o.known q i h)
  ];
  pending = λ q i k. elim (create-creating w p b q i k) [
    | inl (e, n) ↦ create-inits w p b i o ∙ o.fresh i (omega (arith, n))
    | inr h ↦ create-inits w p b i o ∙ o.pending q i h
  ];
  alone = λ q r i k l. elim (create-creating w p b q i k) [
    | inl (e, n) ↦ elim (create-creating w p b r i l) [
      | inl (e', n') ↦ e ∙ sym e'
      | inr h ↦ absurd (omega (arith, n, o.known r i h))
    ]
    | inr g ↦ elim (create-creating w p b r i l) [
      | inl (e', n') ↦ absurd (omega (arith, n', o.known q i g))
      | inr h ↦ o.alone q r i g h
    ]
  ];
}

-- An initialisation by the one process that is creating the segment.
abbrev readied_by : World → ℕ → ℕ → World
readied_by w p i = moved w p (mutex_init i w.system) (attached true i)

readied-inits :
    (w : World) (p i j : ℕ)
    → (((readied_by w p i).system.segments j).inits ≡ (w.system.segments j).inits)
      ⊎ ((j ≡ i) × (((readied_by w p i).system.segments j).inits ≡ (w.system.segments i).inits + 1))
readied-inits w p i j = elim (Bool-cases (j == i)) [
  | inl e ↦ inr (eq_of j i e, rw e refl)
  | inr e ↦ inl (rw e refl)
]

readied-IsOnce :
    (w : World) (p i : ℕ) → creating (w.stage p) ≡ some i → IsOnce w → IsOnce (readied_by w p i)
readied-IsOnce w p i c o =
    let before = kept-creating w.stage p (attached true i) (inl refl) in
    record {
      once = λ j. elim (readied-inits w p i j) [
        | inl e ↦ omega (arith, e, o.once j)
        | inr (h, e) ↦ omega (arith, e, o.pending p i c)
      ];
      fresh = λ j k. elim (readied-inits w p i j) [
        | inl e ↦ omega (arith, e, o.fresh j k)
        | inr (h, e) ↦ absurd (omega (arith, h, k, o.known p i c))
      ];
      known = λ q j k. o.known q j (before q j k);
      pending = λ q j k. elim (readied-inits w p i j) [
        | inl e ↦ e ∙ o.pending q j (before q j k)
        | inr (h, e) ↦ elim (update-cases w.stage p (attached true i) q) [
          | inl (e', u) ↦ absurd (ground (arith, k, ap creating u))
          | inr (n, u) ↦ absurd (n (o.alone q p j (before q j k) (c ∙ ap some (sym h))))
        ]
      ];
      alone = λ q r j k l. o.alone q r j (before q j k) (before r j l);
    }

Moves-IsOnce :
    (w : World) (p : ℕ) (s : System) (st : Stage)
    → Moves w.system (w.stage p) s st
    → IsOnce w
    → IsOnce (moved w p s st)
Moves-IsOnce w p s st (kept c n h) o = kept-IsOnce w p s st c n h o
Moves-IsOnce w p s st (made b) o = made-IsOnce w p b o
Moves-IsOnce w p s st (readied c) o = readied-IsOnce w p _ c o

run-IsOnce :
    (v : Variant) (steps : List (ℕ × Action)) (w : World) → IsOnce w → IsOnce (run v steps w)
unfolding run world_step
run-IsOnce v [] w o = o
run-IsOnce v ((p, a) ∷ steps) w o =
    run-IsOnce v steps (world_step v p a w)
      (Moves-IsOnce w p _ _ (act-Moves v a w.system (w.stage p)) o)

-- In both variants, whatever the order of the steps of any number of processes that attach, detach,
-- destroy and attach again, and whatever the system calls answer: the mutex of each segment is
-- initialised at most once, and not at all while a process stands between the segment's creation
-- and that; and no two processes stand there for the same segment.
pub run_once :
    (v : Variant) (steps : List (ℕ × Action))
    → let w = run v steps at_start in
      ((i : ℕ) → (w.system.segments i).inits ≤ 1)
      × ((p i : ℕ) → creating (w.stage p) ≡ some i → (w.system.segments i).inits ≡ 0)
      × ((p q i : ℕ) → creating (w.stage p) ≡ some i → creating (w.stage q) ≡ some i → p ≡ q)
run_once v steps =
    let o = run-IsOnce v steps at_start (record {
      once = λ i. omega arith;
      fresh = λ i k. refl;
      known = λ p i k. absurd (ground (arith, k));
      pending = λ p i k. refl;
      alone = λ p q i k l. absurd (ground (arith, k));
    }) in
    (o.once, o.pending, o.alone)
