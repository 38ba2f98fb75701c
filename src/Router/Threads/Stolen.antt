-- ===== src/Router/Threads/Stolen.antt =====
-- How a process that starts can keep the router from its end.
use study_c.Prelude.{
  ℕ, suc, ◌≡◌, ◌≢◌, refl, inl, inr, Bool, true, false, ◌==◌, Option, none, some, List, [], ◌∷◌,
  ◌++◌, arith, zero, replicate, Bool-cases, Bytes,
}
use study_c.Ipc.{Notify, msg_type_shm_notify, msg_type_shm_quit}
use study_c.Shm.{Read, read, max_payload_size}
use study_c.Collector.{data_ready}
use study_c.Collector.Loop.{read_udp-queue}
use study_c.Router.Relay.{
  Turn, Worker, Sending, disconnected, receive, on_notify, worker_turn, after_read, after_send,
  forward,
}
use study_c.Router.Sources.{Signal}
use study_c.Router.Threads.{
  System, join_worker, relaying, WorkerAnswer, Step, main_goes, signal_goes, worker_goes, mgmt_goes,
  mgmt_fails, shutdown_command, datagram, emptied, others_quit, step, main_step, signal_step,
  worker_step, mgmt_step, on_shutdown_command, run,
}
use study_c.Router.Threads.Queues.{has_quit}

-- No send of the worker finds the viewer gone, and no other router puts a quit message into the
-- queue that they share.
abbrev pub IsUnhelped : Step → Type 0
IsUnhelped (worker_goes a) = a.turn.sending ≢ disconnected
IsUnhelped others_quit = false ≡ true
IsUnhelped _ = Unit {0}

abbrev pub AllUnhelped : List Step → Type 0
AllUnhelped [] = Unit {0}
AllUnhelped (x ∷ xs) = IsUnhelped x × AllUnhelped xs

-- Main waits for the worker, which is in its loop, and no quit message is in the queue.
record IsStuck (s : System) : Type 0 where
  waits : s.main_at ≡ join_worker
  relays : s.worker_at ≡ relaying
  lost : has_quit s.worker.link.queue ≡ false

-- What is received out of a queue without a quit message.
abbrev Harmless : Option (Notify × List Notify) → Type 0
Harmless none = Unit {0}
Harmless (some (n, ns)) = (n.shm_status_id == msg_type_shm_quit) ≡ false × has_quit ns ≡ false

receive-Harmless : (k : ℕ) (q : List Notify) → has_quit q ≡ false → Harmless (receive k q)
unfolding receive
receive-Harmless k [] h = tt
receive-Harmless k (n ∷ q) h = ground (arith, receive-Harmless k q)

after_send-going :
    (t : Turn) (p : Bytes) (s : Sending) (w : Worker)
    → s ≢ disconnected
    → ((after_send t p s w).0 ≡ true) × ((after_send t p s w).1.link ≡ w.link)
after_send-going t p s w n = ground (arith, n)

forward-going :
    (t : Turn) (m : Option Bytes) (w : Worker)
    → t.sending ≢ disconnected
    → ((forward t m w).0 ≡ true) × ((forward t m w).1.link ≡ w.link)
forward-going t none w n = (refl, refl)
forward-going t (some p) w n = after_send-going t p t.sending w n

after_read-going :
    (t : Turn) (r : Read) (w : Worker)
    → t.sending ≢ disconnected
    → ((after_read t r w).0 ≡ true) × ((after_read t r w).1.link ≡ w.link)
after_read-going t r w n = elim (Bool-cases r.done) [
  | inl e ↦ rw e (forward-going t r.msg w n)
  | inr e ↦ rw e (refl, refl)
]

-- A round of the worker that ends neither by a quit message nor by a disconnection.
abbrev GoesOn : Bool × Worker → Type 0
GoesOn (going, w) = going ≡ true × has_quit w.link.queue ≡ false

on_notify-GoesOn :
    (t : Turn) (n : Notify) (w : Worker)
    → t.sending ≢ disconnected
    → (n.shm_status_id == msg_type_shm_quit) ≡ false
    → has_quit w.link.queue ≡ false
    → GoesOn (on_notify t n w)
unfolding on_notify
on_notify-GoesOn t n w c h q =
    let r = read max_payload_size w.link.shared t.lock true (some (replicate max_payload_size 0)) in
    ground (arith, after_read-going t r w c)

received-GoesOn :
    (t : Turn) (w : Worker) (m : Option (Notify × List Notify))
    → t.sending ≢ disconnected
    → receive msg_type_shm_notify w.link.queue ≡ m
    → Harmless m
    → has_quit w.link.queue ≡ false
    → GoesOn (worker_turn t w)
unfolding worker_turn
received-GoesOn t w none c e h q = ground arith
received-GoesOn t w (some (n, ns)) c e h q =
    ground
      (arith, on_notify-GoesOn t n (record w { link = record (w.link) { queue = ns } }) c h.0 h.1)

worker_turn-GoesOn :
    (t : Turn) (w : Worker)
    → t.sending ≢ disconnected
    → has_quit w.link.queue ≡ false
    → GoesOn (worker_turn t w)
worker_turn-GoesOn t w c q =
    received-GoesOn t w (receive msg_type_shm_notify w.link.queue) c refl
      (receive-Harmless msg_type_shm_notify w.link.queue q) q

has_quit-data_ready :
    (q : List Notify) (k : ℕ) → has_quit q ≡ false → has_quit (q ++ replicate k data_ready) ≡ false
unfolding replicate
has_quit-data_ready [] zero h = refl
has_quit-data_ready [] (suc k) h = has_quit-data_ready [] k refl
has_quit-data_ready (n ∷ q) k h = ground (arith, has_quit-data_ready q k)

worker_step-IsStuck :
    (a : WorkerAnswer) (s : System)
    → a.turn.sending ≢ disconnected
    → IsStuck s
    → IsStuck (worker_step s.worker_at a s)
unfolding worker_step
worker_step-IsStuck a s c i =
    let g = worker_turn-GoesOn a.turn s.worker c i.lost in ground (arith, i, g)

signal_step-IsStuck :
    (sig : Option Signal) (s : System) → IsStuck s → IsStuck (step (signal_goes sig) s)
unfolding step signal_step
signal_step-IsStuck sig s i = ground (arith, i)

step-IsStuck : (x : Step) (s : System) → IsUnhelped x → IsStuck s → IsStuck (step x s)
unfolding step main_step mgmt_step on_shutdown_command
step-IsStuck (main_goes a told) s c i = ground (arith, i)
step-IsStuck (signal_goes sig) s c i = unfold step in signal_step-IsStuck sig s i
step-IsStuck (worker_goes a) s c i = worker_step-IsStuck a s c i
step-IsStuck mgmt_goes s c i = ground (arith, i)
step-IsStuck mgmt_fails s c i = ground (arith, i)
step-IsStuck (shutdown_command sent) s c i = ground (arith, i)
step-IsStuck (datagram b lock sent) s c i =
    let (k, le, q) = read_udp-queue (some (b, lock, sent)) s.worker.link in
    ground (arith, i, q, has_quit-data_ready s.worker.link.queue k)
step-IsStuck emptied s c i = ground (arith, i)
step-IsStuck others_quit s c i = cc

run-IsStuck : (xs : List Step) (s : System) → AllUnhelped xs → IsStuck s → IsStuck (run xs s)
unfolding run
run-IsStuck [] s c i = i
run-IsStuck (x ∷ xs) s c i = run-IsStuck xs (step x s) c.1 (step-IsStuck x s c.0 i)

-- Where main waits for the worker and the worker is still in its loop, and a collector or a router
-- that starts empties the queue that they share: main waits on, whatever steps follow, as long as
-- no send of the worker finds the viewer gone and no other router that shuts down puts its own quit
-- message into the queue.
pub emptied_waits :
    (xs : List Step) (s : System)
    → s.main_at ≡ join_worker
    → s.worker_at ≡ relaying
    → AllUnhelped xs
    → (run (emptied ∷ xs) s).main_at ≡ join_worker
unfolding run step
emptied_waits xs s m w c =
    (run-IsStuck xs (step emptied s) c (record { waits = m; relays = w; lost = refl })).waits
