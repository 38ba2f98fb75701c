-- ===== src/Examples/Mains.antt =====
-- Runs of the collector's loop, and of the main functions of the collector and the router.
use study_c.Prelude.{
  ◌≡◌, refl, true, false, none, some, [], ◌∷◌, arith, pos, Bytes, codes, c_str, length, ◌≤◌,
  strncpy, replicate, pad, drop, take, bytes_eq,
}
use study_c.Lifecycle.{orderly}
use study_c.Protocol.{
  Request, request_validate, target_region, zero_request, cmd_shutdown, module_name_size,
}
use study_c.Registry.{at_start, register, register_at, find, find_from, matches, update_at}
use study_c.Registry.Find.{find_entry}
use study_c.Registry.Valid.{IsValid, at_start-IsValid, register-IsValid}
use study_c.Registry.Views.{view}
use study_c.Handlers.{Table, Process, handler_shutdown, collector}
use study_c.Socket.{MgmtSocket, Io}
use study_c.Shm.{Locking}
use study_c.Collector.{Link}
use study_c.Collector.Loop.{
  Node, Ready, polled, signalled, read_udp, run_event_loop, Ends, run_event_loop-IsValid,
}
use study_c.Collector.Stop.{shutdown_ends_loop}
use study_c.Collector.SetUp
use study_c.Collector.SetUp.{collector_main-orderly}
use study_c.Router.SetUp.Exits
use study_c.Router.SetUp.Exits.{router_main-orderly}
use study_c.Router.SetUp.{Answers, main}

-- The collector, whose port is taken.
abbrev port_taken : SetUp.Answers
port_taken = record {
  shared_queue_ok = true;
  shm_ok = true;
  registry_ok = true;
  handlers_ok = true;
  mgmt_socket_ok = true;
  udp_fd = pos 5;
  bind_ok = false;
}

collector_main-orderly_example :
    orderly SetUp.same SetUp.users (SetUp.kept true) [] (SetUp.main port_taken).1 ≡ true
collector_main-orderly_example = collector_main-orderly port_taken

-- The router, whose management thread is not created.
abbrev no_management : Answers
no_management = record {
  main_queue_ok = true;
  shared_queue_ok = true;
  shm_ok = true;
  pipe_ok = true;
  sem_init_ok = true;
  sigmask_ok = true;
  signal_thread_ok = true;
  sem_wait_ok = true;
  worker_thread_ok = true;
  registry_ok = true;
  handlers_ok = true;
  mgmt_thread_ok = false;
  quit_sent = true;
}

router_main-orderly_example :
    (orderly Exits.same Exits.users [] [] (main no_management []).1.events ≡ true)
    × ((main no_management []).1.shared_queue ≡ Exits.left_behind no_management)
router_main-orderly_example = router_main-orderly no_management []

abbrev name : Bytes
name = codes "collector"

abbrev table : Table
table =
    (register (some name) cmd_shutdown (some (handler_shutdown collector)) (some (pos 5))
      at_start).1

short : length (c_str name) ≤ 63
unfolding c_str
short = omega arith

table-IsValid : IsValid table
table-IsValid =
    register-IsValid name cmd_shutdown (some (handler_shutdown collector)) (some (pos 5)) at_start
      short at_start-IsValid

abbrev shutdown : Request
shutdown = record zero_request {
  cmd_type = cmd_shutdown;
  target_module = strncpy (replicate module_name_size 0) name 63;
}

shutdown-validates : request_validate (some shutdown) ≡ true
unfolding request_validate strncpy pad c_str drop replicate
shutdown-validates = refl

shutdown-bound :
    view table cmd_shutdown (target_region shutdown)
    ≡ some (some (handler_shutdown collector), some (pos 5))
unfolding view register register_at find find_from matches update_at at_start c_str bytes_eq strncpy
    pad drop replicate take find_entry
shutdown-bound = refl

abbrev socket : MgmtSocket
socket = record {
  socket_fd = pos 4;
  socket_path = [];
  total_requests = 0;
  total_responses = 0;
  failed_requests = 0;
}

abbrev io : Io
io = record { timeout_set = true; received = some shutdown; delivered = false }

abbrev process : Process
process = record {
  now = record { sec = 43200; nsec = pos 5000 };
  uptime = pos 61;
  queue_open = true;
  keep_running = true;
  main_queue = [];
  shutdown_requested = false;
  null_read = false;
}

abbrev link : Link
link = record { shared = none; queue = [] }

abbrev both : Ready
both = record { datagram = some (some (codes "hello"), Locking.acquired, true); request = some io }

abbrev node : Node
node = record { link = link; socket = some socket; registry = table; process = process }

shutdown_ends_loop_example :
    (n : Node) × (run_event_loop (polled both ∷ polled both ∷ []) node ≡ some (false, n))
    × (n.link ≡ read_udp both.datagram link)
    × (n.process.keep_running ≡ false)
shutdown_ends_loop_example =
    shutdown_ends_loop (polled both ∷ []) both link socket table process io shutdown (pos 5)
      table-IsValid refl refl refl refl shutdown-validates shutdown-bound

run_event_loop-IsValid_example : Ends (polled both ∷ signalled ∷ []) node
run_event_loop-IsValid_example =
    run_event_loop-IsValid (polled both ∷ signalled ∷ []) node table-IsValid
