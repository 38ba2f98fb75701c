-- ===== src/Router/MainLoop/Shutdown.antt =====
-- Which events end the main loop, and that the shutdown reaches the worker.
use study_c.Prelude.{
  ◌<◌, ◌≡◌, refl, ap, ◌∙◌, ◌⊎◌, inl, inr, Bool, true, false, ◌||◌, ◌==◌, List, [], ◌∷◌, ◌++◌, arith,
  length, append_assoc,
}
use study_c.Ipc.{
  Notify, InternalMsg, EventType, ev_quit, ev_udp, ev_ipc, ev_fatal, ev_signal, sig_num,
}
use study_c.Router.Relay.{Turn, Worker, worker_run, sigterm}
use study_c.Router.Relay.Stop.{AllNotify, AllReceived, worker_run_stops}
use study_c.Router.MainLoop.{
  Router, Arrival, arrived, interrupted, broken, on_event, event_loop, after_loop, quit_message,
  sigint, send_shm_quit,
}

-- The events that are meant to end the program: a fatal error, SIGINT and SIGTERM.
abbrev pub ends_program : EventType → InternalMsg → Bool
ends_program ev_fatal m = true
ends_program ev_signal m = sig_num m == sigint || sig_num m == sigterm
ends_program ev_quit m = false
ends_program ev_udp m = false
ends_program ev_ipc m = false

abbrev pub is_final : Arrival → Bool
is_final (arrived m told) = ends_program m.event m
is_final interrupted = false
is_final broken = true

abbrev pub NoneFinal : List Arrival → Type 0
NoneFinal [] = Unit {0}
NoneFinal (a ∷ as') = (is_final a ≡ false) × NoneFinal as'

pub on_event-harmless :
    (told : Bool) (e : EventType) (m : InternalMsg) (r : Router)
    → ends_program e m ≡ false
    → on_event told e m r ≡ r
unfolding on_event
on_event-harmless told ev_fatal m r h = cc
on_event-harmless told ev_signal m r h = ground arith
on_event-harmless told _ m r h = refl

-- What an event that ends the program leaves.
pub on_event-final :
    (told : Bool) (e : EventType) (m : InternalMsg) (r : Router)
    → ends_program e m ≡ true
    → ((on_event told e m r).keep_running ≡ false) × ((on_event told e m r).pipe_open ≡ false)
unfolding on_event send_shm_quit
on_event-final told ev_fatal m r h = (refl, refl)
on_event-final told ev_signal m r h = (ground arith, ground arith)
on_event-final told ev_quit m r h = (cc, cc)
on_event-final told ev_udp m r h = (cc, cc)
on_event-final told ev_ipc m r h = (cc, cc)

event_loop-stopped :
    (as' : List Arrival) (r : Router) → r.keep_running ≡ false → event_loop as' r ≡ (false, r)
unfolding event_loop
event_loop-stopped [] r h = ground arith
event_loop-stopped (arrived m told ∷ as') r h = ground arith
event_loop-stopped (interrupted ∷ as') r h = ground arith
event_loop-stopped (broken ∷ as') r h = refl

-- The state that the last round leaves.
abbrev pub last_round : Arrival → Router → Router
last_round (arrived m told) r = on_event told m.event m r
last_round interrupted r = r
last_round broken r = r

-- The main loop passes over every event but a fatal error, SIGINT and SIGTERM with no effect, a
-- QUIT from the network among them; the first of these three, or an error of msgrcv, ends it, with
-- no effect but that of this last round.
pub event_loop_ends :
    (before rest : List Arrival) (a : Arrival) (r : Router)
    → r.keep_running ≡ true
    → NoneFinal before
    → is_final a ≡ true
    → event_loop (before ++ (a ∷ rest)) r ≡ (false, last_round a r)
unfolding event_loop
event_loop_ends [] rest (arrived m told) r k h f =
    ground (
      arith,
      on_event-final told m.event m r f,
      event_loop-stopped rest (on_event told m.event m r),
    )
event_loop_ends [] rest interrupted r k h f = cc
event_loop_ends [] rest broken r k h f = refl
event_loop_ends (arrived m told ∷ before) rest a r k h f =
    ground
      (arith, on_event-harmless told m.event m r (h.0), event_loop_ends before rest a r k (h.1) f)
event_loop_ends (interrupted ∷ before) rest a r k h f =
    ground (arith, event_loop_ends before rest a r k (h.1) f)
event_loop_ends (broken ∷ before) rest a r k h f = cc

pub on_event-queue :
    (told : Bool) (e : EventType) (m : InternalMsg) (r : Router)
    → ((on_event told e m r).ipc_queue ≡ r.ipc_queue)
      ⊎ ((on_event told e m r).ipc_queue ≡ r.ipc_queue ++ (quit_message ∷ []))
unfolding on_event send_shm_quit
on_event-queue told ev_signal m r = ground arith
on_event-queue told _ m r = inl refl

-- What the worker's queue holds at the end: what it held, and a quit message behind it.
abbrev Quits : List Notify → List Notify → Type 0
Quits old new =
    (after : List Notify) × (new ≡ old ++ (quit_message ∷ after)) × AllNotify (quit_message ∷ after)

quit_queued :
    (a : Arrival) (r : Router) → Quits r.ipc_queue (after_loop true (last_round a r)).ipc_queue
unfolding after_loop send_shm_quit
quit_queued interrupted r = ([], refl, (refl, tt))
quit_queued broken r = ([], refl, (refl, tt))
quit_queued (arrived m told) r = elim (on_event-queue told m.event m r) [
  | inl e ↦ ([], rw e refl, (refl, tt))
  | inr e ↦ (
    quit_message ∷ [],
    rw e (append_assoc r.ipc_queue (quit_message ∷ []) (quit_message ∷ [])),
    (refl, (refl, tt)),
  )
]

pub AllNotify-append : (xs ys : List Notify) → AllNotify xs → AllNotify ys → AllNotify (xs ++ ys)
AllNotify-append [] ys h k = k
AllNotify-append (x ∷ xs) ys h k = (h.0, AllNotify-append xs ys (h.1) k)

-- The router when the lines behind the loop have run.
abbrev pub at_end : List Arrival → Router → Router
at_end arrivals r = after_loop true (event_loop arrivals r).1

-- The shutdown reaches the worker: once the loop has ended and its quit message was taken by the
-- queue, the flag is cleared, the pipe is closed, and a worker that reads this queue leaves its
-- loop within one round more than there were notifications waiting.
pub shutdown_reaches_worker :
    (before rest : List Arrival) (a : Arrival) (r : Router) (ts : List Turn) (w : Worker)
    → r.keep_running ≡ true
    → NoneFinal before
    → is_final a ≡ true
    → AllNotify r.ipc_queue
    → AllReceived ts
    → length r.ipc_queue < length ts
    → w.link.queue ≡ (at_end (before ++ (a ∷ rest)) r).ipc_queue
    → ((at_end (before ++ (a ∷ rest)) r).keep_running ≡ false)
      × ((at_end (before ++ (a ∷ rest)) r).pipe_open ≡ false)
      × ((worker_run ts w).0 ≡ false)
shutdown_reaches_worker before rest a r ts w k h f hn hr hl hq =
    let e = event_loop_ends before rest a r k h f in
    let (after, q, al) = quit_queued a r in
    (
      unfold after_loop send_shm_quit in refl,
      unfold after_loop send_shm_quit in refl,
      worker_run_stops r.ipc_queue after quit_message ts w
          (AllNotify-append r.ipc_queue (quit_message ∷ after) hn al) refl hr hl
          (hq ∙ ap (λ x. (after_loop true (x.1)).ipc_queue) e ∙ q),
    )
