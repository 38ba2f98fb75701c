-- ===== src/Router/SetUp/Faults/Race.antt =====
-- The race option: what its thread's creation and the failures before it lead to.
use study_c.Prelude.{
  Bool, true, false, none, some, List, [], ◌&&◌, ◌≡◌, refl, ap, ◌∙◌, Bytes, arith, if◌then◌else◌,
}
use study_c.Lifecycle.{acquire, release, orderly}
use study_c.Router.MainLoop.{Router, Arrival, event_loop, send_shm_quit}
use study_c.Router.SetUp.{race_thread, Answers, Main, note, skip_to_cleanup, ending, all_up}
use study_c.Router.SetUp.Exits.{same, users, answers}
use study_c.Router.SetUp.Faults.{Options, FaultAnswers, Outcome, faulty_main, program}
use study_c.Router.SetUp.Faults.Arguments.{
  AllOptions, some_is, is_leak, is_use_after_free, is_race, program_go,
}

-- How a run ends: with everything released in order, with something not, or in undefined
-- behaviour.
pub data Verdict : Type 0 where
  clean dirty undefined : Verdict

abbrev pub verdict : Outcome → Verdict
verdict none = undefined
verdict (some (ret, m)) = if orderly same users [] [] m.events then clean else dirty

abbrev pub threads_up : Answers → Bool
threads_up a =
    a.main_queue_ok && a.shm_ok && a.pipe_ok && a.sem_init_ok && a.sigmask_ok && a.signal_thread_ok
    && a.sem_wait_ok && a.worker_thread_ok

abbrev pub mgmt_up : Answers → Bool
mgmt_up a = a.registry_ok && a.handlers_ok && a.mgmt_thread_ok

-- By what has succeeded before the race thread, and whether its creation does.
abbrev pub expected : Answers → Bool → Verdict
expected a created =
    if threads_up a
    then if mgmt_up a then if created then clean else dirty else undefined
    else clean

abbrev with_race : Options
with_race = record { fail_leak = false; fail_use_after_free = false; fail_race = true }

abbrev memory : Bool → Bool → Bool → FaultAnswers
memory s l t = record { spare_memory = s; leak_memory = l; race_thread_ok = t }

abbrev race_up : Bool → Main
race_up z = note (acquire race_thread) (all_up z)

ended :
    (r : Router) (z p q : Bool)
    → r.pipe_open ≡ p
    → orderly same users [] []
        (skip_to_cleanup true (note (release race_thread) (ending r q (race_up z)))).1.events
      ≡ true
unfolding send_shm_quit
ended r z true true e = rw e refl
ended r z true false e = rw e refl
ended r z false true e = rw e refl
ended r z false false e = rw e refl

module _ (s l : Bool) where
  Judged : Bool → Answers → List Arrival → Type 0
  Judged t a arrivals = verdict (faulty_main with_race (memory s l t) a arrivals) ≡ expected a t

  served :
      (z q : Bool) (arrivals : List Arrival)
      → Judged true (answers z true true true true true true true true true true true q) arrivals
  unfolding Judged faulty_main
  served z q arrivals =
      let r = (event_loop arrivals (all_up z).router).1 in rw (ended r z r.pipe_open q refl) refl

  exits :
      (t z a b c d e f g h i j k q : Bool) (arrivals : List Arrival)
      → Judged t (answers z a b c d e f g h i j k q) arrivals
  unfolding Judged send_shm_quit faulty_main
  exits t z false b c d e f g h i j k q arrivals = refl
  exits t z true false c d e f g h i j k q arrivals = refl
  exits t z true true false d e f g h i j k q arrivals = refl
  exits t z true true true false e f g h i j k q arrivals = refl
  exits t z true true true true false f g h i j k q arrivals = refl
  exits t z true true true true true false g h i j k q arrivals = refl
  exits t z true true true true true true false h i j k q arrivals = refl
  exits t z true true true true true true true false i j k q arrivals = refl
  exits t z true true true true true true true true false j k true arrivals = refl
  exits t z true true true true true true true true false j k false arrivals = refl
  exits t z true true true true true true true true true false k true arrivals = refl
  exits t z true true true true true true true true true false k false arrivals = refl
  exits t z true true true true true true true true true true false true arrivals = refl
  exits t z true true true true true true true true true true false false arrivals = refl
  exits true z true true true true true true true true true true true true arrivals =
      served z true arrivals
  exits false z true true true true true true true true true true true true arrivals = refl
  exits true z true true true true true true true true true true true false arrivals =
      served z false arrivals
  exits false z true true true true true true true true true true true false arrivals = refl

faulty_main_race :
    (f : FaultAnswers) (a : Answers) (arrivals : List Arrival)
    → verdict (faulty_main with_race f a arrivals) ≡ expected a f.race_thread_ok
faulty_main_race f a arrivals =
    unfold Judged in
    exits f.spare_memory f.leak_memory f.race_thread_ok a.shared_queue_ok a.main_queue_ok a.shm_ok
      a.pipe_ok a.sem_init_ok a.sigmask_ok a.signal_thread_ok a.sem_wait_ok a.worker_thread_ok
      a.registry_ok a.handlers_ok a.mgmt_thread_ok a.quit_sent arrivals

-- The program that is built with faults, with no argument but --fail-race, which is given, by what
-- main acquires and can release. Where a thread or what comes before the threads fails, all of it
-- is released in order. Where the threads are there and the management's set-up fails, the exit
-- tests a variable that has no value. Where both are there, all is released in order if the race
-- thread is created, whatever events the loop takes; if it is not, something is released out of
-- order or not at all.
pub program_races :
    (args : List Bytes) (f : FaultAnswers) (a : Answers) (arrivals : List Arrival)
    → AllOptions args
    → some_is is_leak args ≡ false
    → some_is is_use_after_free args ≡ false
    → some_is is_race args ≡ true
    → verdict (program args f a arrivals) ≡ expected a f.race_thread_ok
program_races args f a arrivals h l u r =
    ap verdict (program_go args with_race f a arrivals h (ground arith))
    ∙ faulty_main_race f a arrivals
