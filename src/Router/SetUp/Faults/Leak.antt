-- ===== src/Router/SetUp/Faults/Leak.antt =====
-- The leak option, and none.
use study_c.Prelude.{
  Bool, true, false, none, some, List, [], ◌∷◌, ◌++◌, ◌≡◌, refl, ap, ◌∙◌, Bytes, arith,
  if◌then◌else◌,
}
use study_c.Lifecycle.{acquire, orderly}
use study_c.Router.MainLoop.{Router, Arrival, event_loop, send_shm_quit}
use study_c.Router.SetUp.{Resource, leak_buffer, Answers, Main, skip_to_cleanup, ending, all_up}
use study_c.Router.SetUp.Exits.{same, users, answers}
use study_c.Router.SetUp.Faults.{Options, FaultAnswers, Outcome, faulty_main, program}
use study_c.Router.SetUp.Faults.Arguments.{
  AllOptions, some_is, is_leak, is_use_after_free, is_race, program_go,
}

abbrev pub buffer : Bool → List Resource
buffer true = leak_buffer ∷ []
buffer false = []

-- Whether a run is without undefined behaviour and in order, and leaves what is given.
abbrev pub leaves : List Resource → Outcome → Bool
leaves kept none = false
leaves kept (some (ret, m)) = orderly same users kept [] m.events

abbrev with_leak : Bool → Options
with_leak b = record { fail_leak = b; fail_use_after_free = false; fail_race = false }

abbrev memory : Bool → Bool → Bool → FaultAnswers
memory l s t = record { spare_memory = s; leak_memory = l; race_thread_ok = t }

-- The state in which everything has succeeded, the buffer too if it is asked for.
abbrev up : Bool → Bool → Main
up l z = record (all_up z) {
  events = (if l then acquire leak_buffer ∷ [] else []) ++ (all_up z).events;
  fail_leak = l;
  leak_buf = l;
}

ended :
    (l z : Bool) (r : Router) (p q : Bool)
    → r.pipe_open ≡ p
    → leaves (buffer l) (some (skip_to_cleanup true (ending r q (up l z)))) ≡ true
unfolding send_shm_quit
ended true z r true true e = rw e refl
ended true z r true false e = rw e refl
ended true z r false true e = rw e refl
ended true z r false false e = rw e refl
ended false z r true true e = rw e refl
ended false z r true false e = rw e refl
ended false z r false true e = rw e refl
ended false z r false false e = rw e refl

module _ (s t : Bool) where
  Leaks : Bool → Answers → List Arrival → Type 0
  Leaks b a arrivals =
      leaves (buffer b) (faulty_main (with_leak b) (memory true s t) a arrivals) ≡ true

  served :
      (l z q : Bool) (arrivals : List Arrival)
      → Leaks l (answers z true true true true true true true true true true true q) arrivals
  unfolding Leaks faulty_main
  served true z q arrivals =
      let r = (event_loop arrivals (all_up z).router).1 in ended true z r r.pipe_open q refl
  served false z q arrivals =
      let r = (event_loop arrivals (all_up z).router).1 in ended false z r r.pipe_open q refl

  exits :
      (l z a b c d e f g h i j k q : Bool) (arrivals : List Arrival)
      → Leaks l (answers z a b c d e f g h i j k q) arrivals
  unfolding Leaks send_shm_quit faulty_main
  exits true z false b c d e f g h i j k q arrivals = refl
  exits false z false b c d e f g h i j k q arrivals = refl
  exits true z true false c d e f g h i j k q arrivals = refl
  exits false z true false c d e f g h i j k q arrivals = refl
  exits true z true true false d e f g h i j k q arrivals = refl
  exits false z true true false d e f g h i j k q arrivals = refl
  exits true z true true true false e f g h i j k q arrivals = refl
  exits false z true true true false e f g h i j k q arrivals = refl
  exits true z true true true true false f g h i j k q arrivals = refl
  exits false z true true true true false f g h i j k q arrivals = refl
  exits true z true true true true true false g h i j k q arrivals = refl
  exits false z true true true true true false g h i j k q arrivals = refl
  exits true z true true true true true true false h i j k q arrivals = refl
  exits false z true true true true true true false h i j k q arrivals = refl
  exits true z true true true true true true true false i j k q arrivals = refl
  exits false z true true true true true true true false i j k q arrivals = refl
  exits true z true true true true true true true true false j k true arrivals = refl
  exits false z true true true true true true true true false j k true arrivals = refl
  exits true z true true true true true true true true false j k false arrivals = refl
  exits false z true true true true true true true true false j k false arrivals = refl
  exits true z true true true true true true true true true false k true arrivals = refl
  exits false z true true true true true true true true true false k true arrivals = refl
  exits true z true true true true true true true true true false k false arrivals = refl
  exits false z true true true true true true true true true false k false arrivals = refl
  exits true z true true true true true true true true true true false true arrivals = refl
  exits false z true true true true true true true true true true false true arrivals = refl
  exits true z true true true true true true true true true true false false arrivals = refl
  exits false z true true true true true true true true true true false false arrivals = refl
  exits true z true true true true true true true true true true true true arrivals =
      served true z true arrivals
  exits true z true true true true true true true true true true true false arrivals =
      served true z false arrivals
  exits false z true true true true true true true true true true true true arrivals =
      served false z true arrivals
  exits false z true true true true true true true true true true true false arrivals =
      served false z false arrivals

faulty_main_leak :
    (l : Bool) (f : FaultAnswers) (a : Answers) (arrivals : List Arrival)
    → f.leak_memory ≡ true
    → leaves (buffer l) (faulty_main (with_leak l) f a arrivals) ≡ true
faulty_main_leak l f a arrivals h = rw h (
    unfold Leaks in
    exits f.spare_memory f.race_thread_ok l a.shared_queue_ok a.main_queue_ok a.shm_ok a.pipe_ok
      a.sem_init_ok a.sigmask_ok a.signal_thread_ok a.sem_wait_ok a.worker_thread_ok a.registry_ok
      a.handlers_ok a.mgmt_thread_ok a.quit_sent arrivals)

-- The program that is built with faults, with no argument but --fail-leak, given any number of
-- times, where its malloc gives memory: on every path it has no undefined behaviour, and all that
-- main acquires and can release is released, in order and when the threads that use it are joined,
-- but for the buffer, which is left exactly if the argument is given.
pub program_leaks :
    (args : List Bytes) (f : FaultAnswers) (a : Answers) (arrivals : List Arrival)
    → AllOptions args
    → some_is is_use_after_free args ≡ false
    → some_is is_race args ≡ false
    → f.leak_memory ≡ true
    → leaves (buffer (some_is is_leak args)) (program args f a arrivals) ≡ true
program_leaks args f a arrivals h u r m =
    ap (leaves (buffer (some_is is_leak args)))
      (program_go args (with_leak (some_is is_leak args)) f a arrivals h (ground arith))
    ∙ faulty_main_leak (some_is is_leak args) f a arrivals m
