-- ===== src/Router/SetUp/Faults.antt =====
-- Router/src/main.c with the build option ENABLE_FAULT_INJECTION: the command line, and what the
-- options add to main. The thread of `race_worker` does nothing but count until it is cancelled.
pub mod Arguments
pub mod Leak
pub mod Race
use study_c.Prelude.{
  Bool, true, false, not, Option, none, some, List, [], ◌∷◌, ◌++◌, ◌&&◌, ◌||◌, Bytes, codes, str_eq,
  if◌then◌else◌,
}
use study_c.Lifecycle.{acquire, release}
use study_c.Router.MainLoop.{Arrival, event_loop}
use study_c.Router.SetUp.{
  leak_buffer, race_thread, registry, mgmt_thread, Answers, Main, note, note_if, cleanup_t2,
  skip_to_cleanup, ending, serve, give_up, set_up, at_start,
}

-- The three variables that the options set.
pub record Options : Type 0 where
  pub fail_leak : Bool
  pub fail_use_after_free : Bool
  pub fail_race : Bool

abbrev pub no_options : Options
no_options = record { fail_leak = false; fail_use_after_free = false; fail_race = false }

-- What the loop over the arguments comes to: the program goes on, or it prints its usage and
-- returns, with EXIT_SUCCESS or not.
pub data Start : Type 0 where
  go : Options → Start
  print_usage : Bool → Start

pub data Argument : Type 0 where
  leak use_after_free race help unknown : Argument

unfoldable pub argument : Bytes → Argument
argument arg =
    if str_eq arg (codes "--fail-leak")
    then leak
    else if str_eq arg (codes "--fail-use-after-free")
    then use_after_free
    else if str_eq arg (codes "--fail-race")
    then race
    else if str_eq arg (codes "--help")
    then help
    else unknown

-- The loop over argv[1] and on.
unfoldable pub parse_options : List Bytes → Options → Start
parse_options [] o = go o
parse_options (arg ∷ args) o = elim (argument arg) [
  | leak ↦ parse_options args (record o { fail_leak = true })
  | use_after_free ↦ parse_options args (record o { fail_use_after_free = true })
  | race ↦ parse_options args (record o { fail_race = true })
  | help ↦ print_usage true
  | unknown ↦ print_usage false
]

-- What the calls answer that the options add.
pub record FaultAnswers : Type 0 where
  pub spare_memory : Bool
  pub leak_memory : Bool
  pub race_thread_ok : Bool

-- `none` is undefined behaviour: a write to freed memory, or the test of a `t_race_created` that
-- has no value yet.
abbrev pub Outcome : Type 0
Outcome = Option (Bool × Main)

-- The label skip_to_cleanup, by `t_race_created`, which has no value (`none`) where a goto has
-- jumped over its initialisation.
abbrev pub leave : Options → Option Bool → Bool → Main → Outcome
leave o created ret m =
    if o.fail_race
    then elim created [
      | none ↦ none
      | some true ↦ some (skip_to_cleanup ret (note (release race_thread) m))
      | some false ↦ some (skip_to_cleanup ret m)
    ]
    else some (skip_to_cleanup ret m)

-- From the creation of the race thread on, where a failure goes to cleanup_t3.
abbrev pub race_and_serve : Options → FaultAnswers → Answers → List Arrival → Main → Outcome
race_and_serve o f a arrivals m =
    if o.fail_race
    then if f.race_thread_ok
      then leave o (some true) true (serve arrivals a.quit_sent (note (acquire race_thread) m))
      else some (skip_to_cleanup false m)
    else leave o (some false) true (serve arrivals a.quit_sent m)

-- From the management's set-up on. The goto of a failure jumps over `int t_race_created = 0;`.
abbrev pub manage : Options → FaultAnswers → Answers → List Arrival → Main → Outcome
manage o f a arrivals m =
    let m' =
      if a.registry_ok
      then record (note (acquire registry) m) { registry_initialized = true }
      else m in
    if a.registry_ok && a.handlers_ok && a.mgmt_thread_ok
    then race_and_serve o f a arrivals
        (record (note (acquire mgmt_thread) m') { t_mgmt_created = true })
    else leave o none false (give_up a.quit_sent m')

-- main behind the loop over the arguments.
unfoldable pub faulty_main : Options → FaultAnswers → Answers → List Arrival → Outcome
unfolding set_up
faulty_main o f a arrivals =
    if o.fail_use_after_free && f.spare_memory
    then none
    else set_up some (manage o f a arrivals) a (
        note_if (o.fail_leak && f.leak_memory) (acquire leak_buffer)
          (record at_start { fail_leak = o.fail_leak; leak_buf = o.fail_leak && f.leak_memory }))

-- main behind the loop over the arguments, by what the loop comes to. The usage is printed before
-- anything is acquired.
abbrev pub started : FaultAnswers → Answers → List Arrival → Start → Outcome
started f a arrivals (go o) = faulty_main o f a arrivals
started f a arrivals (print_usage success) = some (success, at_start)

-- The whole program, given argv[1] and on.
unfoldable pub program : List Bytes → FaultAnswers → Answers → List Arrival → Outcome
program args f a arrivals = started f a arrivals (parse_options args no_options)
