-- ===== src/Router/MainLoop.antt =====
-- The event loop of Router/src/main.c and the shutdown that follows it. Each round is what msgrcv
-- on the main queue answers; `told` says whether msgsnd to the worker's queue succeeds.
pub mod Shutdown
use study_c.Prelude.{Bool, true, false, List, [], ◌∷◌, ◌++◌, ◌||◌, ◌==◌, if◌then◌else◌, ℕ}
use study_c.Ipc.{
  Notify, InternalMsg, EventType, ev_quit, ev_udp, ev_ipc, ev_fatal, ev_signal, sig_num,
  msg_type_shm_notify, msg_type_shm_quit,
}
use study_c.Router.Relay.{sigterm}

abbrev pub sigint : ℕ
sigint = 2

-- What the loop changes: `g_keep_running`, whether `g_shutdown_pipe[1]` is open, and the queue that
-- the worker reads.
pub record Router : Type 0 where
  pub keep_running : Bool
  pub pipe_open : Bool
  pub ipc_queue : List Notify

abbrev pub quit_message : Notify
quit_message = record { mtype = msg_type_shm_notify; shm_status_id = msg_type_shm_quit }

unfoldable pub send_shm_quit : Bool → Router → Router
send_shm_quit told r =
    if told then record r { ipc_queue = r.ipc_queue ++ (quit_message ∷ []) } else r

-- `if (g_shutdown_pipe[1] != -1) { close(..); .. = -1; }` leaves it closed either way.
abbrev pub close_pipe : Router → Router
close_pipe r = record r { pipe_open = false }

abbrev pub stop_running : Router → Router
stop_running r = record r { keep_running = false }

-- The `switch` on the event.
unfoldable pub on_event : Bool → EventType → InternalMsg → Router → Router
on_event told ev_quit m r = r
on_event told ev_udp m r = r
on_event told ev_ipc m r = r
on_event told ev_fatal m r = close_pipe (stop_running r)
on_event told ev_signal m r =
    if sig_num m == sigint || sig_num m == sigterm
    then close_pipe (send_shm_quit told (stop_running r))
    else r

-- What msgrcv answers: a message, EINTR, or another error.
pub data Arrival : Type 0 where
  arrived : InternalMsg → Bool → Arrival
  interrupted : Arrival
  broken : Arrival

-- The loop, over the rounds given; the flag says whether it still waits.
unfoldable pub event_loop : List Arrival → Router → Bool × Router
event_loop [] r = (r.keep_running, r)
event_loop (interrupted ∷ rest) r =
    let later = event_loop rest r in if r.keep_running then later else (false, r)
event_loop (broken ∷ rest) r = (false, r)
event_loop (arrived m told ∷ rest) r =
    let later = event_loop rest (on_event told m.event m r) in
    if r.keep_running then later else (false, r)

-- The lines behind the loop, which every way out of it reaches.
unfoldable pub after_loop : Bool → Router → Router
after_loop told r = send_shm_quit told (close_pipe (stop_running r))
