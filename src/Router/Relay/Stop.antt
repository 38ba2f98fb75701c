-- ===== src/Router/Relay/Stop.antt =====
-- When the worker's two loops end.
use study_c.Prelude.{
  ℕ, zero, suc, ◌<◌, ◌≡◌, refl, inl, inr, true, false, ◌||◌, some, List, [], ◌∷◌, ◌++◌, arith,
  length, replicate, ltb, if◌then◌else◌, Bool-cases,
}
use study_c.Ipc.{Notify, msg_type_shm_notify, msg_type_shm_quit}
use study_c.Router.Relay.{
  Turn, Worker, Attempt, receive, on_notify, worker_turn, worker_run, connect_loop, connected,
  stopped, exhausted, after_read, after_send, Sending,
}
use study_c.Shm.{Read, read, max_payload_size}

-- Every message has the type that the worker waits for.
abbrev pub AllNotify : List Notify → Type 0
AllNotify [] = Unit {0}
AllNotify (n ∷ ns) = (n.mtype ≡ msg_type_shm_notify) × AllNotify ns

abbrev pub AllReceived : List Turn → Type 0
AllReceived [] = Unit {0}
AllReceived (t ∷ ts) = (t.received ≡ true) × AllReceived ts

abbrev pub AllUnreceived : List Turn → Type 0
AllUnreceived [] = Unit {0}
AllUnreceived (t ∷ ts) = (t.received ≡ false) × AllUnreceived ts

pub receive-head :
    (n : Notify) (ns : List Notify)
    → n.mtype ≡ msg_type_shm_notify
    → receive msg_type_shm_notify (n ∷ ns) ≡ some (n, ns)
unfolding receive
receive-head n ns h = ground arith

after_send-queue :
    (t : Turn) (p : List ℕ) (s : Sending) (w : Worker)
    → (after_send t p s w).1.link.queue ≡ w.link.queue
after_send-queue t p Sending.sent w = refl
after_send-queue t p Sending.disconnected w = refl
after_send-queue t p Sending.hiccup w = refl

after_read-queue :
    (t : Turn) (r : Read) (w : Worker) → (after_read t r w).1.link.queue ≡ w.link.queue
after_read-queue t r w = ground arith

-- A round takes the oldest notification out of the queue, whatever its calls answer.
pub queue-worker_turn :
    (t : Turn) (w : Worker) (n : Notify) (ns : List Notify)
    → t.received ≡ true
    → n.mtype ≡ msg_type_shm_notify
    → w.link.queue ≡ n ∷ ns
    → (worker_turn t w).1.link.queue ≡ ns
unfolding worker_turn on_notify
queue-worker_turn t w n ns hr hn hq = ground (
  arith,
  receive-head n ns hn,
  after_read-queue t
      (read max_payload_size w.link.shared t.lock true (some (replicate max_payload_size 0)))
      (record w { link = record (w.link) { queue = ns } }),
)

pub worker_turn-quit :
    (t : Turn) (w : Worker) (n : Notify) (ns : List Notify)
    → t.received ≡ true
    → n.mtype ≡ msg_type_shm_notify
    → n.shm_status_id ≡ msg_type_shm_quit
    → w.link.queue ≡ n ∷ ns
    → (worker_turn t w).0 ≡ false
unfolding worker_turn on_notify
worker_turn-quit t w n ns hr hn hi hq = ground (arith, receive-head n ns hn)

-- The quit notification ends the worker: where it stands behind `before` in the queue, it takes at
-- most one round for each message up to it, whatever lock, `send` and the segment answer.
pub worker_run_stops :
    (before after : List Notify) (quit : Notify) (ts : List Turn) (w : Worker)
    → AllNotify (before ++ (quit ∷ after))
    → quit.shm_status_id ≡ msg_type_shm_quit
    → AllReceived ts
    → length before < length ts
    → w.link.queue ≡ before ++ (quit ∷ after)
    → (worker_run ts w).0 ≡ false
unfolding worker_run
worker_run_stops before after quit [] w hn hi hr hl hq = absurd (omega arith)
worker_run_stops [] after quit (t ∷ ts) w hn hi hr hl hq =
    ground (arith, worker_turn-quit t w quit after (hr.0) (hn.0) hi hq)
worker_run_stops (n ∷ before) after quit (t ∷ ts) w hn hi hr hl hq =
    elim (Bool-cases ((worker_turn t w).0)) [
      | inl e ↦
          rw (e, worker_run)
            (worker_run_stops before after quit ts (worker_turn t w).1 (hn.1) hi (hr.1)
              (omega arith) (queue-worker_turn t w n (before ++ (quit ∷ after)) (hr.0) (hn.0) hq))
      | inr e ↦ rw (e, worker_run) refl
    ]

-- A worker whose msgrcv fails each time, as on a queue that does not exist, never leaves its loop
-- and changes nothing.
pub worker_run_spins :
    (ts : List Turn) (w : Worker) → AllUnreceived ts → worker_run ts w ≡ (true, w)
unfolding worker_run worker_turn
worker_run_spins [] w h = refl
worker_run_spins (t ∷ ts) w h = rw (h.0) (worker_run_spins ts w (h.1))

-- Attempts that fail with no shutdown in the wait after them.
abbrev pub AllRefused : List Attempt → Type 0
AllRefused [] = Unit {0}
AllRefused (a ∷ as') = (a.accepted ≡ false) × (a.shutdown ≡ false) × AllRefused as'

-- The retry loop is decided by the first attempt that is accepted or followed by a shutdown, if it
-- is among the first `left` ones: then it connects or stops; else the attempts are exhausted.
pub connect_loop_decides :
    (left : ℕ) (refused : List Attempt) (a : Attempt) (rest : List Attempt)
    → AllRefused refused
    → (a.accepted || a.shutdown) ≡ true
    → connect_loop left (refused ++ (a ∷ rest))
      ≡ (if ltb (length refused) left then if a.accepted then connected else stopped else exhausted)
unfolding connect_loop
connect_loop_decides zero refused a rest h d = ground arith
connect_loop_decides (suc left) [] a rest h d = ground arith
connect_loop_decides (suc left) (b ∷ refused) a rest h d =
    ground (arith, connect_loop_decides left refused a rest (h.2) d)
