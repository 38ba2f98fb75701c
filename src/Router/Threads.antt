-- ===== src/Router/Threads.antt =====
-- Router/src/main.c from the creation of its threads on, with the threads themselves: the event
-- loop and the joins of main, Router/src/signal_worker.c, Router/src/router_worker.c,
-- Mgmt/src/mgmt_worker.c with the SHUTDOWN handler of Router/src/mgmt_handlers.c, and the datagrams
-- that the collector passes on. A step is one system call of one thread with the lines up to the
-- next, so the threads' steps can stand in any order; a step that has to wait changes nothing.
-- msgsnd is taken to answer: the queues do not stay full for ever.
pub mod Queues
pub mod Sound
pub mod Measure
pub mod Progress
pub mod Rounds
pub mod Shutdown
pub mod Stolen
pub mod Command
use study_c.Prelude.{
  ℕ, zero, suc, Bool, true, false, not, Option, none, some, List, [], ◌∷◌, ◌++◌, ◌&&◌, Bytes, codes,
  if◌then◌else◌,
}
use study_c.Ipc.{InternalMsg, send_fatal_event, send_signal_event}
use study_c.Shm.{Locking}
use study_c.Collector.{Link, handle_udp_read}
use study_c.Router.Relay.{Turn, Worker, worker_turn, connect_max_retries, sigterm}
use study_c.Router.MainLoop.{
  Router, quit_message, on_event, send_shm_quit, close_pipe, stop_running,
}
use study_c.Router.Sources.{Signal, signal_round}

-- Where main stands: in the event loop; before the store and the closing of the pipe behind it;
-- before send_shm_quit; in the joins of the management's and of the worker's thread; before
-- pthread_cancel; in the join of the signal thread; behind it.
pub data MainAt : Type 0 where
  receiving leaving telling join_mgmt join_worker cancel_signal join_signal finished : MainAt

-- The signal thread before the test of the flag, in sigwait, and behind its loop.
pub data SignalAt : Type 0 where
  testing waiting over : SignalAt

-- The worker before its socket, before an attempt to connect or in the wait after one (with the
-- attempts left), in its loop, and behind it.
pub data WorkerAt : Type 0 where
  opening : WorkerAt
  trying : ℕ → WorkerAt
  pausing : ℕ → WorkerAt
  relaying over : WorkerAt

-- The globals, the queues (in `worker`), the positions of the threads, and whether the signal
-- thread is asked to cancel.
pub record System : Type 0 where
  pub keep_running : Bool
  pub pipe_open : Bool
  pub cancelled : Bool
  pub worker : Worker
  pub main_at : MainAt
  pub worker_at : WorkerAt
  pub signal_at : SignalAt
  pub mgmt_over : Bool

-- Behind the creation of the threads, with what the link to the collector holds then.
abbrev pub at_start : Link → System
at_start link = record {
  keep_running = true;
  pipe_open = true;
  cancelled = false;
  worker = record { link = link; main_queue = []; tcp = [] };
  main_at = receiving;
  worker_at = opening;
  signal_at = testing;
  mgmt_over = false;
}

-- What msgrcv on the main queue answers, if a message is there.
pub data Receive : Type 0 where
  taken interrupted broken : Receive

-- What the worker's calls answer: socket, connect, the select of the wait (false is an error), the
-- calls of a round of its loop, and msgsnd of a fatal event.
pub record WorkerAnswer : Type 0 where
  pub opened : Bool
  pub accepted : Bool
  pub selected : Bool
  pub turn : Turn
  pub reported : Bool

pub data Step : Type 0 where
  main_goes : Receive → Bool → Step
  signal_goes : Option Signal → Step
  worker_goes : WorkerAnswer → Step
  mgmt_goes : Step
  mgmt_fails : Step
  shutdown_command : Bool → Step
  datagram : Option Bytes → Locking → Bool → Step
  emptied : Step
  others_quit : Step

-- What main.c's lines read and change, out of the whole and back.
abbrev pub router_of : System → Router
router_of s = record {
  keep_running = s.keep_running;
  pipe_open = s.pipe_open;
  ipc_queue = s.worker.link.queue;
}

abbrev pub put_router : Router → System → System
put_router r s = record s {
  keep_running = r.keep_running;
  pipe_open = r.pipe_open;
  worker = record (s.worker) { link = record (s.worker.link) { queue = r.ipc_queue } };
}

abbrev pub put_main_queue : List InternalMsg → System → System
put_main_queue q s = record s { worker = record (s.worker) { main_queue = q } }

-- A message taken out of the main queue, or the wait for one.
abbrev pub take_message : Bool → List InternalMsg → System → System
take_message told [] s = s
take_message told (m ∷ rest) s =
    put_router (on_event told m.event m (router_of s)) (put_main_queue rest s)

-- A round of the event loop, by what msgrcv answers.
abbrev pub receive_round : Receive → Bool → System → System
receive_round taken told s = take_message told s.worker.main_queue s
receive_round interrupted told s = s
receive_round broken told s = record s { main_at = leaving }

unfoldable pub main_step : MainAt → Receive → Bool → System → System
main_step receiving a told s =
    if s.keep_running then receive_round a told s else record s { main_at = leaving }
main_step leaving a told s = record (put_router (close_pipe (stop_running (router_of s))) s) {
  main_at = telling;
}
main_step telling a told s = record (put_router (send_shm_quit told (router_of s)) s) {
  main_at = join_mgmt;
}
main_step join_mgmt a told s = if s.mgmt_over then record s { main_at = join_worker } else s
main_step join_worker a told s = elim s.worker_at [
  | WorkerAt.over ↦ record s { main_at = cancel_signal }
  | _ ↦ s
]
main_step cancel_signal a told s = record s { main_at = join_signal; cancelled = true }
main_step join_signal a told s = elim s.signal_at [
  | SignalAt.over ↦ record s { main_at = finished }
  | _ ↦ s
]
main_step finished a told s = s

-- The rest of a round of the signal thread, whose pthread_testcancel stands at the end.
abbrev pub after_signal : Signal → System → System
after_signal sig s =
    let (going, q) = signal_round sig s.worker.main_queue in
    record (put_main_queue q s) {
      signal_at = if going && not s.cancelled then testing else SignalAt.over;
    }

-- sigwait waits as long as no signal is pending (`none`), and there the thread is cancelled.
unfoldable pub signal_step : SignalAt → Option Signal → System → System
signal_step testing sig s =
    if s.keep_running
    then record s { signal_at = waiting }
    else record s { signal_at = SignalAt.over }
signal_step waiting none s = if s.cancelled then record s { signal_at = SignalAt.over } else s
signal_step waiting (some sig) s =
    if s.cancelled then record s { signal_at = SignalAt.over } else after_signal sig s
signal_step SignalAt.over sig s = s

-- The worker's return with a fatal event.
abbrev pub give_up : Bool → Bytes → System → System
give_up reported text s =
    record (put_main_queue (send_fatal_event reported s.worker.main_queue (some text)).1 s) {
      worker_at = WorkerAt.over;
    }

unfoldable pub worker_step : WorkerAt → WorkerAnswer → System → System
worker_step opening a s =
    if a.opened
    then record s { worker_at = trying connect_max_retries }
    else give_up a.reported (codes "router_worker: socket open failure") s
worker_step (trying zero) a s =
    give_up a.reported (codes "router_worker: TCP connect failure after retries") s
worker_step (trying (suc left)) a s =
    if a.accepted then record s { worker_at = relaying } else record s { worker_at = pausing left }
worker_step (pausing left) a s =
    if a.selected && not s.pipe_open
    then record s { worker_at = WorkerAt.over }
    else record s { worker_at = trying left }
worker_step relaying a s =
    let (going, w) = worker_turn a.turn s.worker in
    record s { worker = w; worker_at = if going then relaying else WorkerAt.over }
worker_step WorkerAt.over a s = s

unfoldable pub mgmt_step : Bool → System → System
mgmt_step ended s = if s.keep_running then s else record s { mgmt_over = true }

-- The SHUTDOWN handler, which the management thread calls.
unfoldable pub on_shutdown_command : Bool → Bool → System → System
on_shutdown_command true sent s = s
on_shutdown_command false sent s =
    put_main_queue (send_signal_event sent s.worker.main_queue sigterm).1 s

-- A collector or a router that starts takes every message out of the queue that they share.
abbrev pub empty_queue : System → System
empty_queue s = record s {
  worker = record (s.worker) { link = record (s.worker.link) { queue = [] } };
}

-- Another router that shuts down puts its quit message into the queue that they share.
abbrev pub other_quits : System → System
other_quits s = record s {
  worker = record (s.worker) {
    link = record (s.worker.link) { queue = s.worker.link.queue ++ (quit_message ∷ []) };
  };
}

unfoldable pub step : Step → System → System
step (main_goes a told) s = main_step s.main_at a told s
step (signal_goes sig) s = signal_step s.signal_at sig s
step (worker_goes a) s = worker_step s.worker_at a s
step mgmt_goes s = mgmt_step s.mgmt_over s
step mgmt_fails s = record s { mgmt_over = true }
step (shutdown_command sent) s = on_shutdown_command s.mgmt_over sent s
step (datagram bytes lock sent) s = record s {
  worker = record (s.worker) { link = handle_udp_read bytes lock sent s.worker.link };
}
step emptied s = empty_queue s
step others_quit s = other_quits s

unfoldable pub run : List Step → System → System
run [] s = s
run (x ∷ xs) s = run xs (step x s)
