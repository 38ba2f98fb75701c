-- ===== src/Router/Threads/Rounds.antt =====
-- Rounds in which each of the router's threads makes one step.
use study_c.Prelude.{
  ◌≤◌, ◌<◌, ◌≡◌, ◌≢◌, refl, ◌⊎◌, inl, inr, true, false, Option, List, [], ◌∷◌, arith, length,
  Bool-cases, ◌∙◌,
}
use study_c.Router.Sources.{Signal}
use study_c.Router.Threads.{
  System, MainAt, join_mgmt, join_worker, join_signal, finished, Receive, WorkerAnswer, Step,
  main_goes, signal_goes, worker_goes, mgmt_goes, step, signal_step, worker_step, run,
}
use study_c.Router.Threads.Sound.{IsSound, step-IsSound, is_over}
use study_c.Router.Threads.Measure.{
  is_stopping, left, Eases, Nears, blocked, is_interrupted, main_step-Nears, main_step-blocked,
}
use study_c.Router.Threads.Progress.{
  signal_step-Eases, signal_step-Nears, signal_step-frame, worker_step-Eases, worker_step-Nears,
  worker_step-frame, mgmt_step-Eases, mgmt_step-Nears, mgmt_step-frame,
}

-- What the calls of a round answer, in which each thread makes one step.
pub record Round : Type 0 where
  pub receive : Receive
  pub signal : Option Signal
  pub worker : WorkerAnswer

-- msgrcv on neither queue fails by a signal.
abbrev pub IsRegular : Round → Type 0
IsRegular r = (is_interrupted r.receive ≡ false) × (r.worker.turn.received ≡ true)

abbrev pub AllRegular : List Round → Type 0
AllRegular [] = Unit {0}
AllRegular (r ∷ rs) = IsRegular r × AllRegular rs

-- The steps of the rounds, with the quit message taken by the queue.
abbrev pub steps : List Round → List Step
steps [] = []
steps (r ∷ rs) =
    main_goes r.receive true ∷ signal_goes r.signal ∷ worker_goes r.worker ∷ mgmt_goes ∷ steps rs

-- The states within a round.
abbrev after_main : Round → System → System
after_main r s = step (main_goes r.receive true) s

abbrev after_signal : Round → System → System
after_signal r s = step (signal_goes r.signal) (after_main r s)

abbrev after_worker : Round → System → System
after_worker r s = step (worker_goes r.worker) (after_signal r s)

abbrev after_round : Round → System → System
after_round r s = step mgmt_goes (after_worker r s)

main-cases :
    (r : Round) (s : System)
    → IsRegular r
    → is_stopping s ≡ true
    → (blocked s.main_at s ≡ true) × (after_main r s ≡ s) ⊎ Nears s (after_main r s)
unfolding step
main-cases r s g h = elim (Bool-cases (blocked s.main_at s)) [
  | inl b ↦ inl (b, main_step-blocked s.main_at r.receive s b)
  | inr b ↦ inr (main_step-Nears s.main_at r.receive s refl h b g.0)
]

-- The steps behind main's, of which one brings all nearer where main waits.
rest-Eases :
    (r : Round) (s : System)
    → is_stopping s ≡ true
    → IsSound s
    → let s2 = step (signal_goes r.signal) s in
      let s3 = step (worker_goes r.worker) s2 in
      Eases s s2 × Eases s2 s3 × Eases s3 (step mgmt_goes s3)
unfolding step
rest-Eases r s h i =
    let a = signal_step-Eases s.signal_at r.signal s refl h in
    let s2 = signal_step s.signal_at r.signal s in
    let b =
      worker_step-Eases s2.worker_at r.worker s2 refl a.1
        (unfold step in step-IsSound (signal_goes r.signal) s tt i) in
    let s3 = worker_step s2.worker_at r.worker s2 in
    let c = mgmt_step-Eases s3.mgmt_over s3 b.1 in (a, b, c)

worker-Nears :
    (r : Round) (s : System)
    → s.main_at ≡ join_worker
    → is_over s.worker_at ≡ false
    → IsRegular r
    → IsSound s
    → Nears s (step (worker_goes r.worker) s)
unfolding step
worker-Nears r s e o g i = worker_step-Nears s.worker_at r.worker s refl e o g.1 i

mgmt-Nears :
    (s : System)
    → s.main_at ≡ join_mgmt
    → s.mgmt_over ≡ false
    → IsSound s
    → Nears s (step mgmt_goes s)
unfolding step
mgmt-Nears s e o i = mgmt_step-Nears s e o i

signal-frame :
    (r : Round) (s : System)
    → let s2 = step (signal_goes r.signal) s in
      (s2.main_at ≡ s.main_at) × (s2.worker_at ≡ s.worker_at) × (s2.mgmt_over ≡ s.mgmt_over)
unfolding step
signal-frame r s = signal_step-frame s.signal_at r.signal s

-- The signal thread and the worker move neither main nor the management's thread.
joined-frame :
    (r : Round) (s : System)
    → let s3 = step (worker_goes r.worker) (step (signal_goes r.signal) s) in
      (s3.main_at ≡ s.main_at) × (s3.mgmt_over ≡ s.mgmt_over)
unfolding step
joined-frame r s =
    let s2 = signal_step s.signal_at r.signal s in
    let f = signal_step-frame s.signal_at r.signal s in
    let f' = worker_step-frame s2.worker_at r.worker s2 in (f'.0 ∙ f.0, f'.1 ∙ f.2)

-- One of those brings all nearer where main waits.
waits-Nears :
    (p : MainAt) (r : Round) (s : System)
    → s.main_at ≡ p
    → p ≢ finished
    → blocked p s ≡ true
    → IsRegular r
    → is_stopping s ≡ true
    → IsSound s
    → Nears s (step mgmt_goes (step (worker_goes r.worker) (step (signal_goes r.signal) s)))
waits-Nears join_signal r s e n b g h i =
    let (x, y, z) = rest-Eases r s h i in
    let k : Nears s (step (signal_goes r.signal) s) =
      unfold step in signal_step-Nears s.signal_at r.signal s refl e (ground arith) i in
    (omega (arith, k.0, y.0, z.0), z.1)
waits-Nears join_worker r s e n b g h i =
    let (x, y, z) = rest-Eases r s h i in
    let s2 = step (signal_goes r.signal) s in
    let f = signal-frame r s in
    let k : Nears s2 (step (worker_goes r.worker) s2) =
      worker-Nears r s2 (f.0 ∙ e) (ground (arith, f.1)) g
        (step-IsSound (signal_goes r.signal) s tt i) in
    (omega (arith, x.0, k.0, z.0), z.1)
waits-Nears join_mgmt r s e n b g h i =
    let (x, y, z) = rest-Eases r s h i in
    let s2 = step (signal_goes r.signal) s in
    let s3 = step (worker_goes r.worker) s2 in
    let (m, o) = joined-frame r s in
    let k : Nears s3 (step mgmt_goes s3) =
      mgmt-Nears s3 (m ∙ e) (o ∙ ground arith)
        (step-IsSound (worker_goes r.worker) s2 tt (step-IsSound (signal_goes r.signal) s tt i)) in
    (omega (arith, x.0, y.0, k.0), z.1)
waits-Nears finished r s e n b g h i = absurd (n refl)
waits-Nears _ r s e n b g h i = cc

round-Nears :
    (r : Round) (s : System)
    → s.main_at ≢ finished
    → IsRegular r
    → is_stopping s ≡ true
    → IsSound s
    → Nears s (after_round r s)
round-Nears r s n g h i = elim (main-cases r s g h) [
  | inl (b, e) ↦ rw e (waits-Nears s.main_at r s refl n b g h i)
  | inr k ↦
      let s1 = after_main r s in
      let (x, y, z) = rest-Eases r s1 k.1 (step-IsSound (main_goes r.receive true) s refl i) in
      (omega (arith, k.0, x.0, y.0, z.0), z.1)
]

round-IsSound : (r : Round) (s : System) → IsSound s → IsSound (after_round r s)
round-IsSound r s i = step-IsSound mgmt_goes (after_worker r s) tt (
    step-IsSound (worker_goes r.worker) (after_signal r s) tt (
      step-IsSound (signal_goes r.signal) (after_main r s) tt
        (step-IsSound (main_goes r.receive true) s refl i)))

mgmt-frame : (s : System) → (step mgmt_goes s).main_at ≡ s.main_at
unfolding step
mgmt-frame s = mgmt_step-frame s.mgmt_over s

finished-stays : (r : Round) (s : System) → s.main_at ≡ finished → after_main r s ≡ s
unfolding step
finished-stays r s e = main_step-blocked s.main_at r.receive s (ground arith)

round-finished :
    (r : Round) (s : System) → s.main_at ≡ finished → (after_round r s).main_at ≡ finished
round-finished r s e = rw (finished-stays r s e) (
    mgmt-frame (step (worker_goes r.worker) (step (signal_goes r.signal) s))
    ∙ (joined-frame r s).0
    ∙ e)

main_at-cases : (m : MainAt) → (m ≡ finished) ⊎ (m ≢ finished)
main_at-cases m = ground arith

left-pos : (s : System) → s.main_at ≢ finished → 0 < left s
left-pos s n = ground (arith, n)

rounds-finished :
    (rs : List Round) (s : System) → s.main_at ≡ finished → (run (steps rs) s).main_at ≡ finished
unfolding run
rounds-finished [] s e = e
rounds-finished (r ∷ rs) s e = rounds-finished rs (after_round r s) (round-finished r s e)

pub rounds_end :
    (rs : List Round) (s : System)
    → AllRegular rs
    → is_stopping s ≡ true
    → IsSound s
    → left s ≤ length rs
    → (run (steps rs) s).main_at ≡ finished
unfolding run
rounds_end [] s g h i l = elim (main_at-cases s.main_at) [
  | inl e ↦ e
  | inr n ↦ absurd (omega (arith, left-pos s n))
]
rounds_end (r ∷ rs) s g h i l = elim (main_at-cases s.main_at) [
  | inl e ↦ rounds-finished rs (after_round r s) (round-finished r s e)
  | inr n ↦
      let k = round-Nears r s n g.0 h i in
      rounds_end rs (after_round r s) g.1 k.1 (round-IsSound r s i) (omega (arith, k.0))
]
