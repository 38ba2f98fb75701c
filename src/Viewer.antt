-- ===== src/Viewer.antt =====
-- Viewer/src/main.c, Viewer/src/signal_thread.c, Viewer/src/tcp_worker.c and
-- Viewer/src/udp_common.h: the threads of the viewer from the creation of the signal thread on. A
-- step is one region under the lock, one system call or one creation or joining of a thread, so the
-- threads' steps can stand in any order; a step that has to wait changes nothing. The management
-- thread is Mgmt/src/mgmt_worker.c, with the SHUTDOWN handler of Viewer/src/mgmt_handlers.c. The
-- creation of the signal thread and of the TCP thread and the write to the pipe, which main does
-- not check or only reports, are taken to succeed.
pub mod Progress
pub mod Shutdown
pub mod Deaf
pub mod Display
use study_c.Prelude.{ℕ, ◌+◌, Bool, true, false, List, [], ◌∷◌, ◌&&◌, ◌==◌, if◌then◌else◌}

-- The signals that every thread blocks, and the signal thread waits for.
pub data Signal : Type 0 where
  sigint sigterm sigusr1 : Signal

-- Those that are pending: a signal does not queue.
pub record Pending : Type 0 where
  pub int : Bool
  pub term : Bool
  pub usr1 : Bool

-- Where main stands: in the first wait on the condition variable; before the management; in the
-- second wait; before the store to `g_mgmt_running`, pthread_kill and the write to the pipe; in the
-- three calls of pthread_join; behind them.
pub data MainAt : Type 0 where
  await_ready start_mgmt await_request stop_mgmt kill_signal write_pipe join_signal join_tcp
        join_mgmt :
      MainAt
  finished : MainAt

pub data SignalAt : Type 0 where
  announcing waiting over : SignalAt

-- The TCP thread before its creation, before its loop, at the test of the flag or in poll with or
-- without a client, and behind the loop.
pub data TcpAt : Type 0 where
  absent opening : TcpAt
  looping : Bool → TcpAt
  polling : Bool → TcpAt
  over : TcpAt

pub data MgmtAt : Type 0 where
  absent running over : MgmtAt

-- `AppContext`, with the bytes in the pipe, whether main sleeps in pthread_cond_wait, main's
-- `mgmt_ok` and `g_mgmt_running`; and the threads.
pub record Viewer : Type 0 where
  pub shutdown_requested : Bool
  pub signal_thread_ready : Bool
  pub asleep : Bool
  pub pipe_bytes : ℕ
  pub mgmt_ok : Bool
  pub mgmt_running : Bool
  pub pending : Pending
  pub main_at : MainAt
  pub signal_at : SignalAt
  pub tcp_at : TcpAt
  pub mgmt_at : MgmtAt

-- Behind the creation of the signal thread.
abbrev pub at_start : Viewer
at_start = record {
  shutdown_requested = false;
  signal_thread_ready = false;
  asleep = false;
  pipe_bytes = 0;
  mgmt_ok = true;
  mgmt_running = true;
  pending = record { int = false; term = false; usr1 = false };
  main_at = await_ready;
  signal_at = announcing;
  tcp_at = TcpAt.absent;
  mgmt_at = MgmtAt.absent;
}

-- What the management's set-up answers: the registry, the handlers and the thread.
pub record SetUp : Type 0 where
  pub registry_ok : Bool
  pub handlers_ok : Bool
  pub thread_ok : Bool

-- What poll finds, besides the pipe, and what the call behind it answers.
pub data Poll : Type 0 where
  interrupted poll_failed quiet readable_closed : Poll
  readable : Bool → Poll

pub data Step : Type 0 where
  main_goes : SetUp → Step
  signal_goes : Signal → Step
  tcp_opens : Bool → Step
  tcp_polls : Poll → Step
  mgmt_goes : Step
  mgmt_fails : Step
  shutdown_command : Step
  arrives : Signal → Step

-- `ctx->shutdown_requested = 1; pthread_cond_signal(&ctx->cond);`
abbrev pub request : Viewer → Viewer
request v = record v { shutdown_requested = true; asleep = false }

abbrev pub add_pending : Signal → Pending → Pending
add_pending sigint p = record p { int = true }
add_pending sigterm p = record p { term = true }
add_pending sigusr1 p = record p { usr1 = true }

-- The lines of main between the two waits.
abbrev pub set_up : SetUp → Viewer → Viewer
set_up u v =
    if u.registry_ok && u.handlers_ok && u.thread_ok
    then record v { main_at = await_request; mgmt_at = running }
    else request (record v { main_at = await_request; mgmt_ok = false })

unfoldable pub main_step : MainAt → SetUp → Viewer → Viewer
main_step await_ready u v =
    if v.asleep
    then v
    else if v.signal_thread_ready
    then record v { main_at = start_mgmt; tcp_at = opening }
    else record v { asleep = true }
main_step start_mgmt u v = set_up u v
main_step await_request u v =
    if v.asleep
    then v
    else if v.shutdown_requested
    then record v { main_at = stop_mgmt }
    else record v { asleep = true }
main_step stop_mgmt u v = record v { main_at = kill_signal; mgmt_running = false }
main_step kill_signal u v = record v {
  main_at = write_pipe;
  pending = add_pending sigusr1 v.pending;
}
main_step write_pipe u v = record v { main_at = join_signal; pipe_bytes = v.pipe_bytes + 1 }
main_step join_signal u v = elim v.signal_at [ over ↦ record v { main_at = join_tcp } | _ ↦ v ]
main_step join_tcp u v = elim v.tcp_at [ TcpAt.over ↦ record v { main_at = join_mgmt } | _ ↦ v ]
main_step join_mgmt u v = elim v.mgmt_at [ running ↦ v | _ ↦ record v { main_at = finished } ]
main_step finished u v = v

-- sigwait takes one of the pending signals.
abbrev pub take_signal : Signal → Viewer → Viewer
take_signal sigint v =
    if v.pending.int then request (record v { pending = record (v.pending) { int = false } }) else v
take_signal sigterm v =
    if v.pending.term
    then request (record v { pending = record (v.pending) { term = false } })
    else v
take_signal sigusr1 v =
    if v.pending.usr1
    then record v { pending = record (v.pending) { usr1 = false }; signal_at = SignalAt.over }
    else v

unfoldable pub signal_step : SignalAt → Signal → Viewer → Viewer
signal_step announcing s v = record v {
  signal_thread_ready = true;
  asleep = false;
  signal_at = waiting;
}
signal_step waiting s v = take_signal s v
signal_step over s v = v

-- socket, bind and listen: where one fails, the thread returns.
unfoldable pub tcp_open : Bool → TcpAt → TcpAt
tcp_open true opening = looping false
tcp_open false opening = TcpAt.over
tcp_open ok t = t

-- Behind poll, where the pipe is empty: the server's socket or the client's. `readable` says
-- whether accept succeeds, or recv returns bytes; `readable_closed` is recv's 0 or error.
abbrev pub on_network : Poll → Bool → TcpAt
on_network interrupted client = looping client
on_network poll_failed client = TcpAt.over
on_network quiet client = polling client
on_network (readable ok) false = looping ok
on_network (readable ok) true = if ok then looping true else looping false
on_network readable_closed client = looping false

-- The test of the flag is one step, and poll is another: where nothing comes (`quiet`) and the pipe
-- is empty, the thread waits on in poll, whatever the flag is.
unfoldable pub tcp_round : Poll → Viewer → TcpAt → TcpAt
tcp_round poll v (looping client) = if v.shutdown_requested then TcpAt.over else polling client
tcp_round poll v (polling client) = elim poll [
  | interrupted ↦ looping client
  | poll_failed ↦ TcpAt.over
  | other ↦ if 0 == v.pipe_bytes then on_network other client else TcpAt.over
]
tcp_round poll v t = t

unfoldable pub mgmt_step : MgmtAt → Viewer → Viewer
mgmt_step running v = if v.mgmt_running then v else record v { mgmt_at = MgmtAt.over }
mgmt_step m v = v

-- mgmt_socket_create fails.
unfoldable pub mgmt_failure : MgmtAt → Viewer → Viewer
mgmt_failure running v = record v { mgmt_at = MgmtAt.over }
mgmt_failure m v = v

-- The SHUTDOWN handler, which the management thread calls.
unfoldable pub on_shutdown_command : MgmtAt → Viewer → Viewer
on_shutdown_command running v = request (record v { mgmt_running = false })
on_shutdown_command m v = v

unfoldable pub step : Step → Viewer → Viewer
step (main_goes u) v = main_step v.main_at u v
step (signal_goes s) v = signal_step v.signal_at s v
step (tcp_opens ok) v = record v { tcp_at = tcp_open ok v.tcp_at }
step (tcp_polls p) v = record v { tcp_at = tcp_round p v v.tcp_at }
step mgmt_goes v = mgmt_step v.mgmt_at v
step mgmt_fails v = mgmt_failure v.mgmt_at v
step shutdown_command v = on_shutdown_command v.mgmt_at v
step (arrives s) v = record v { pending = add_pending s v.pending }

unfoldable pub run : List Step → Viewer → Viewer
run [] v = v
run (s ∷ ss) v = run ss (step s v)
