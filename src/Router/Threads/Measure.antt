-- ===== src/Router/Threads/Measure.antt =====
-- How near the router's threads are to their end, and that main's steps bring it nearer.
use study_c.Prelude.{
  ℕ, ◌+◌, ◌*◌, ◌≤◌, ◌<◌, ◌≡◌, refl, inl, inr, Bool, true, false, not, ◌||◌, List, [], ◌∷◌, arith,
  length, length-append, if◌then◌else◌, Bool-cases,
}
use study_c.Ipc.{InternalMsg}
use study_c.Router.MainLoop.{Router, on_event, quit_message, send_shm_quit}
use study_c.Router.MainLoop.Shutdown.{
  ends_program, on_event-harmless, on_event-final, on_event-queue,
}
use study_c.Router.Threads.{
  System, MainAt, receiving, leaving, telling, join_mgmt, join_worker, cancel_signal, join_signal,
  finished, SignalAt, testing, waiting, WorkerAt, opening, trying, pausing, relaying, Receive,
  taken, interrupted, broken, main_step, router_of, take_message,
}
use study_c.Router.Threads.Queues.{has_final, to_final}
use study_c.Router.Threads.Sound.{IsSound, main_left, attempts_left, is_over}

-- The router is about to stop: main is behind its event loop, or its flag is cleared, or a message
-- that ends the loop waits in its queue.
abbrev pub stopping_at : MainAt → System → Bool
stopping_at receiving s = not s.keep_running || has_final s.worker.main_queue
stopping_at _ s = true

abbrev pub is_stopping : System → Bool
is_stopping s = stopping_at s.main_at s

abbrev pub finals_at : MainAt → System → ℕ
finals_at receiving s = if s.keep_running then to_final s.worker.main_queue else 0
finals_at _ s = 0

abbrev pub worker_left : WorkerAt → ℕ
worker_left opening = 13
worker_left (trying n) = 2 * n + 2
worker_left (pausing n) = 2 * n + 3
worker_left relaying = 1
worker_left WorkerAt.over = 0

-- The signal thread counts only when it is cancelled.
abbrev pub signal_left : Bool → SignalAt → ℕ
signal_left false g = 2
signal_left true testing = 2
signal_left true waiting = 1
signal_left true SignalAt.over = 0

-- How much the threads have before them.
abbrev pub left : System → ℕ
left s =
    2 * main_left s.main_at
    + 2 * finals_at s.main_at s
    + length s.worker.link.queue
    + worker_left s.worker_at
    + signal_left s.cancelled s.signal_at
    + (if s.mgmt_over then 0 else 1)

-- A step brings nothing farther from the end.
abbrev pub Eases : System → System → Type 0
Eases s s' = (left s' ≤ left s) × (is_stopping s' ≡ true)

abbrev pub Nears : System → System → Type 0
Nears s s' = (left s' < left s) × (is_stopping s' ≡ true)

on_event-length :
    (told : Bool) (m : InternalMsg) (r : Router)
    → length (on_event told m.event m r).ipc_queue ≤ length r.ipc_queue + 1
on_event-length told m r = elim (on_event-queue told m.event m r) [
  | inl e ↦ rw e (omega arith)
  | inr e ↦ rw e (omega (arith, length-append r.ipc_queue (quit_message ∷ [])))
]

take_message-Nears :
    (q : List InternalMsg) (s : System)
    → s.main_at ≡ receiving
    → s.keep_running ≡ true
    → s.worker.main_queue ≡ q
    → has_final q ≡ true
    → Nears s (take_message true q s)
take_message-Nears [] s e k w h = cc
take_message-Nears (m ∷ q) s e k w h = elim (Bool-cases (ends_program m.event m)) [
  | inl f ↦
      ground
        (arith, on_event-final true m.event m (router_of s) f, on_event-length true m (router_of s))
  | inr f ↦ ground (arith, on_event-harmless true m.event m (router_of s) f)
]

abbrev pub is_ended : SignalAt → Bool
is_ended SignalAt.over = true
is_ended _ = false

-- Whether main waits for a thread that has not ended, or is at its end.
abbrev pub blocked : MainAt → System → Bool
blocked join_mgmt s = not s.mgmt_over
blocked join_worker s = not (is_over s.worker_at)
blocked join_signal s = not (is_ended s.signal_at)
blocked finished s = true
blocked _ s = false

abbrev pub is_interrupted : Receive → Bool
is_interrupted interrupted = true
is_interrupted _ = false

receive_round-Nears :
    (a : Receive) (s : System)
    → s.main_at ≡ receiving
    → is_stopping s ≡ true
    → is_interrupted a ≡ false
    → Nears s (main_step receiving a true s)
unfolding main_step
receive_round-Nears taken s e h n = elim (Bool-cases s.keep_running) [
  | inl k ↦ ground (arith, take_message-Nears s.worker.main_queue s e k refl)
  | inr k ↦ ground arith
]
receive_round-Nears interrupted s e h n = cc
receive_round-Nears broken s e h n = ground arith

pub main_step-Nears :
    (p : MainAt) (a : Receive) (s : System)
    → s.main_at ≡ p
    → is_stopping s ≡ true
    → blocked p s ≡ false
    → is_interrupted a ≡ false
    → Nears s (main_step p a true s)
unfolding main_step
main_step-Nears receiving a s e h b n = receive_round-Nears a s e h n
main_step-Nears leaving a s e h b n = ground arith
main_step-Nears telling a s e h b n =
    unfold send_shm_quit in ground (arith, length-append s.worker.link.queue (quit_message ∷ []))
main_step-Nears join_mgmt a s e h b n = ground arith
main_step-Nears join_worker a s e h b n = ground arith
main_step-Nears cancel_signal a s e h b n = ground arith
main_step-Nears join_signal a s e h b n = ground arith
main_step-Nears finished a s e h b n = cc

pub main_step-blocked :
    (p : MainAt) (a : Receive) (s : System) → blocked p s ≡ true → main_step p a true s ≡ s
unfolding main_step
main_step-blocked p a s h = ground arith

to_final-le : (q : List InternalMsg) → to_final q ≤ length q
to_final-le [] = omega arith
to_final-le (m ∷ q) = ground (arith, to_final-le q)

worker_left-le : (p : WorkerAt) → attempts_left p ≤ 5 → worker_left p ≤ 13
worker_left-le p h = ground arith

finals_at-le : (p : MainAt) (s : System) → finals_at p s ≤ length s.worker.main_queue
finals_at-le p s = ground (arith, to_final-le s.worker.main_queue)

pub left-le :
    (s : System)
    → IsSound s
    → left s ≤ 30 + 2 * length s.worker.main_queue + length s.worker.link.queue
left-le s i = ground (arith, finals_at-le s.main_at s, worker_left-le s.worker_at i.attempts)
