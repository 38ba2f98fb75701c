-- ===== src/Examples/Stops.antt =====
-- Runs of the router's threads to their end, and of its build with faults.
use study_c.Prelude.{
  pos, length, ◌≤◌, ℕ, zero, suc, ◌≡◌, refl, true, false, none, some, List, [], ◌∷◌, arith, codes,
  replicate, Bytes, c_str, bytes_eq, strncpy, pad, drop, take,
}
use study_c.Ipc.{build_internal_msg, send_signal_event, send_to_main}
use study_c.Protocol.{
  Request, request_validate, target_region, zero_request, cmd_shutdown, module_name_size,
}
use study_c.Registry
use study_c.Registry.{register, register_at, find, find_from, matches, update_at}
use study_c.Registry.Find.{find_entry}
use study_c.Registry.Valid.{IsValid, at_start-IsValid, register-IsValid}
use study_c.Registry.Views.{view}
use study_c.Handlers.{Table, Handler, Context, Process, handler_shutdown, router, invoke}
use study_c.Socket.{MgmtSocket, Io, Processed, process_one}
use study_c.Router.Threads.Command.{command_ends_router}
use study_c.Shm.{Locking}
use study_c.Collector.{Link, data_ready}
use study_c.Router.Relay.{Turn, Sending}
use study_c.Router.MainLoop.{quit_message}
use study_c.Router.SetUp.{Answers}
use study_c.Router.SetUp.Faults.{FaultAnswers, program, argument}
use study_c.Router.SetUp.Faults.Arguments.{some_is, is_leak}
use study_c.Router.SetUp.Faults.Leak.{leaves, buffer, program_leaks}
use study_c.Router.SetUp.Faults.Race.{verdict, expected, program_races}
use study_c.Router.Threads.{
  System, join_worker, relaying, finished, taken, WorkerAnswer, Step, main_goes, worker_goes,
  shutdown_command, emptied, run, step, at_start, worker_step, on_shutdown_command,
}
use study_c.Router.Threads.Rounds.{Round, AllRegular, steps}
use study_c.Router.Threads.Shutdown.{router_shutdown_completes}
use study_c.Router.Threads.Stolen.{emptied_waits}

abbrev turn : Turn
turn = record {
  received = true;
  lock = Locking.acquired;
  sending = Sending.hiccup;
  reported = true;
}

abbrev answer : WorkerAnswer
answer = record { opened = true; accepted = true; selected = true; turn = turn; reported = true }

abbrev round : Round
round = record { receive = taken; signal = none; worker = answer }

rounds-AllRegular : (n : ℕ) → AllRegular (replicate n round)
unfolding replicate
rounds-AllRegular zero = tt
rounds-AllRegular (suc n) = ((refl, refl), rounds-AllRegular n)

abbrev link : Link
link = record { shared = none; queue = data_ready ∷ [] }

-- The worker connects, and a SHUTDOWN command arrives.
abbrev asked : List Step
asked = worker_goes answer ∷ worker_goes answer ∷ shutdown_command true ∷ []

router_shutdown_completes_example :
    (run (steps (replicate 40 round)) (run asked (at_start link))).main_at ≡ finished
unfolding run step worker_step on_shutdown_command send_signal_event send_to_main build_internal_msg
    replicate
router_shutdown_completes_example =
    router_shutdown_completes link asked (replicate 40 round) (refl, tt) (tt, (tt, (tt, tt)))
      (rounds-AllRegular 40) refl (omega arith)

-- Main waits for the worker, and the quit message waits in the queue.
abbrev joining : System
joining = record (at_start (record link { queue = quit_message ∷ [] })) {
  keep_running = false;
  pipe_open = false;
  main_at = join_worker;
  worker_at = relaying;
  mgmt_over = true;
}

emptied_waits_example :
    (run (emptied ∷ worker_goes answer ∷ main_goes taken true ∷ []) joining).main_at ≡ join_worker
emptied_waits_example =
    emptied_waits (worker_goes answer ∷ main_goes taken true ∷ []) joining refl refl
      (ground arith, (tt, tt))

abbrev all_up : Answers
all_up = record {
  main_queue_ok = true;
  shared_queue_ok = true;
  shm_ok = true;
  pipe_ok = true;
  sem_init_ok = true;
  sigmask_ok = true;
  signal_thread_ok = true;
  sem_wait_ok = true;
  worker_thread_ok = true;
  registry_ok = true;
  handlers_ok = true;
  mgmt_thread_ok = true;
  quit_sent = true;
}

abbrev no_race_thread : FaultAnswers
no_race_thread = record { spare_memory = true; leak_memory = true; race_thread_ok = false }

abbrev fail_leak : List Bytes
fail_leak = codes "--fail-leak" ∷ []

abbrev fail_race : List Bytes
fail_race = codes "--fail-race" ∷ []

program_leaks_example :
    leaves (buffer (some_is is_leak fail_leak)) (program fail_leak no_race_thread all_up []) ≡ true
unfolding argument bytes_eq c_str
program_leaks_example = program_leaks fail_leak no_race_thread all_up [] (refl, tt) refl refl refl

program_races_example : verdict (program fail_race no_race_thread all_up []) ≡ expected all_up false
unfolding argument bytes_eq c_str
program_races_example = program_races fail_race no_race_thread all_up [] (refl, tt) refl refl refl

abbrev name : Bytes
name = codes "router"

abbrev table : Table
table =
    (register (some name) cmd_shutdown (some (handler_shutdown router)) (some (pos 5))
      Registry.at_start).1

short : length (c_str name) ≤ 63
unfolding c_str
short = omega arith

table-IsValid : IsValid table
table-IsValid =
    register-IsValid name cmd_shutdown (some (handler_shutdown router)) (some (pos 5))
      Registry.at_start short at_start-IsValid

abbrev shutdown : Request
shutdown = record zero_request {
  cmd_type = cmd_shutdown;
  target_module = strncpy (replicate module_name_size 0) name 63;
}

shutdown-validates : request_validate (some shutdown) ≡ true
unfolding request_validate strncpy pad c_str drop replicate
shutdown-validates = refl

shutdown-bound :
    view table cmd_shutdown (target_region shutdown)
    ≡ some (some (handler_shutdown router), some (pos 5))
unfolding view register register_at find find_from matches update_at Registry.at_start c_str
    bytes_eq strncpy pad drop replicate take find_entry
shutdown-bound = refl

abbrev socket : MgmtSocket
socket = record {
  socket_fd = pos 4;
  socket_path = [];
  total_requests = 0;
  total_responses = 0;
  failed_requests = 0;
}

abbrev io : Io
io = record { timeout_set = true; received = some shutdown; delivered = false }

abbrev process : Process
process = record {
  now = record { sec = 43200; nsec = pos 5000 };
  uptime = pos 61;
  queue_open = true;
  keep_running = true;
  main_queue = [];
  shutdown_requested = false;
  null_read = false;
}

-- The worker connects.
abbrev connected : List Step
connected = worker_goes answer ∷ worker_goes answer ∷ []

command_ends_router_example :
    (p : Processed Handler Context Process) × (process_one invoke (pos 1000) io socket table process
      ≡ some p)
    × (p.process.main_queue
        ≡ (step (shutdown_command true) (run connected (at_start link))).worker.main_queue)
    × ((run
          (steps (replicate 40 round))
          (step (shutdown_command true) (run connected (at_start link)))).main_at
        ≡ finished)
unfolding run step worker_step replicate
command_ends_router_example =
    command_ends_router link connected (replicate 40 round) io socket table process shutdown (pos 5)
      (refl, tt) (tt, (tt, tt)) (rounds-AllRegular 40) refl refl refl table-IsValid refl refl refl
      shutdown-validates shutdown-bound (omega arith)
