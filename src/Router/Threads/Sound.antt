-- ===== src/Router/Threads/Sound.antt =====
-- What holds of the router's threads in every order of their steps.
use study_c.Prelude.{
  ℕ, zero, suc, ◌≤◌, ◌≡◌, refl, Bool, true, false, ◌||◌, List, [], ◌∷◌, arith, replicate, Option,
  none, some, Bytes,
}
use study_c.Ipc.{InternalMsg, EventType, ev_signal}
use study_c.Shm.{Locking}
use study_c.Collector.{Link, data_ready}
use study_c.Collector.Loop.{read_udp-queue}
use study_c.Router.Relay.Stop.{AllNotify}
use study_c.Router.MainLoop.{Router, on_event, quit_message, send_shm_quit}
use study_c.Router.MainLoop.Shutdown.{AllNotify-append}
use study_c.Router.Sources.{Signal}
use study_c.Router.Threads.{
  System, MainAt, receiving, leaving, telling, join_mgmt, join_worker, cancel_signal, join_signal,
  finished, SignalAt, testing, waiting, WorkerAt, opening, trying, pausing, relaying, Receive,
  taken, interrupted, broken, WorkerAnswer, Step, main_goes, signal_goes, worker_goes, mgmt_goes,
  mgmt_fails, shutdown_command, datagram, emptied, others_quit, step, main_step, signal_step,
  worker_step, mgmt_step, on_shutdown_command, run, at_start, router_of, take_message,
}
use study_c.Router.Threads.Queues.{
  has_quit, has_quit-append, has_quit-quit_message, AllNotify-snoc, worker_turn-IsTurn,
}

-- How much main has before it.
abbrev pub main_left : MainAt → ℕ
main_left receiving = 7
main_left leaving = 6
main_left telling = 5
main_left join_mgmt = 4
main_left join_worker = 3
main_left cancel_signal = 2
main_left join_signal = 1
main_left finished = 0

abbrev pub is_over : WorkerAt → Bool
is_over WorkerAt.over = true
is_over _ = false

-- How often the worker can still try to connect.
abbrev pub attempts_left : WorkerAt → ℕ
attempts_left (trying n) = n
attempts_left (pausing n) = suc n
attempts_left _ = 0

-- Behind each line of main's shutdown, the thread that the line is meant for can see it.
pub record IsSound (s : System) : Type 0 where
  pub notify : AllNotify s.worker.link.queue
  pub stopped : main_left s.main_at ≤ 5 → s.keep_running ≡ false
  pub shut : main_left s.main_at ≤ 5 → s.pipe_open ≡ false
  pub told : main_left s.main_at ≤ 4 → (is_over s.worker_at || has_quit s.worker.link.queue) ≡ true
  pub attempts : attempts_left s.worker_at ≤ 5
  pub asked : main_left s.main_at ≤ 1 → s.cancelled ≡ true

-- The quit message is taken by the queue, and none is taken out of it by another process.
abbrev pub IsTold : Step → Type 0
IsTold (main_goes a told) = told ≡ true
IsTold emptied = false ≡ true
IsTold _ = Unit {0}

abbrev pub AllTold : List Step → Type 0
AllTold [] = Unit {0}
AllTold (x ∷ xs) = IsTold x × AllTold xs

send_shm_quit-AllNotify :
    (told : Bool) (r : Router) → AllNotify r.ipc_queue → AllNotify (send_shm_quit told r).ipc_queue
unfolding send_shm_quit
send_shm_quit-AllNotify true r h = AllNotify-snoc r.ipc_queue quit_message h refl
send_shm_quit-AllNotify false r h = h

on_event-AllNotify :
    (told : Bool) (e : EventType) (m : InternalMsg) (r : Router)
    → AllNotify r.ipc_queue
    → AllNotify (on_event told e m r).ipc_queue
unfolding on_event
on_event-AllNotify told ev_signal m r h =
    ground (arith, send_shm_quit-AllNotify told (record r { keep_running = false }))
on_event-AllNotify told _ m r h = h

take_message-IsSound :
    (told : Bool) (q : List InternalMsg) (s : System)
    → s.main_at ≡ receiving
    → IsSound s
    → IsSound (take_message told q s)
take_message-IsSound told [] s e i = i
take_message-IsSound told (m ∷ q) s e i =
    ground (arith, i, on_event-AllNotify told m.event m (router_of s))

main_step-IsSound :
    (p : MainAt) (a : Receive) (s : System)
    → s.main_at ≡ p
    → IsSound s
    → IsSound (main_step p a true s)
unfolding main_step
main_step-IsSound receiving taken s e i =
    ground (arith, i, take_message-IsSound true s.worker.main_queue s)
main_step-IsSound receiving interrupted s e i = ground (arith, i)
main_step-IsSound receiving broken s e i = ground (arith, i)
main_step-IsSound leaving a s e i = ground (arith, i)
main_step-IsSound telling a s e i =
    unfold send_shm_quit in
    ground (
      arith,
      i,
      AllNotify-snoc s.worker.link.queue quit_message,
      has_quit-quit_message s.worker.link.queue,
    )
main_step-IsSound join_mgmt a s e i = ground (arith, i)
main_step-IsSound join_worker a s e i = ground (arith, i)
main_step-IsSound cancel_signal a s e i = ground (arith, i)
main_step-IsSound join_signal a s e i = ground (arith, i)
main_step-IsSound finished a s e i = i

signal_step-IsSound :
    (g : SignalAt) (sig : Option Signal) (s : System) → IsSound s → IsSound (signal_step g sig s)
unfolding signal_step
signal_step-IsSound testing sig s i = ground (arith, i)
signal_step-IsSound waiting none s i = ground (arith, i)
signal_step-IsSound waiting (some sig) s i = ground (arith, i)
signal_step-IsSound SignalAt.over sig s i = i

worker_step-IsSound :
    (p : WorkerAt) (a : WorkerAnswer) (s : System)
    → s.worker_at ≡ p
    → IsSound s
    → IsSound (worker_step p a s)
unfolding worker_step
worker_step-IsSound opening a s e i = ground (arith, i)
worker_step-IsSound (trying zero) a s e i = ground (arith, i)
worker_step-IsSound (trying (suc n)) a s e i = ground (arith, i)
worker_step-IsSound (pausing n) a s e i = ground (arith, i)
worker_step-IsSound relaying a s e i = ground (arith, i, worker_turn-IsTurn a.turn s.worker)
worker_step-IsSound WorkerAt.over a s e i = i

AllNotify-data_ready : (k : ℕ) → AllNotify (replicate k data_ready)
unfolding replicate
AllNotify-data_ready zero = tt
AllNotify-data_ready (suc k) = (refl, AllNotify-data_ready k)

datagram-IsSound :
    (b : Option Bytes) (lock : Locking) (sent : Bool) (s : System)
    → IsSound s
    → IsSound (step (datagram b lock sent) s)
unfolding step
datagram-IsSound b lock sent s i =
    let (k, le, q) = read_udp-queue (some (b, lock, sent)) s.worker.link in
    ground (
      arith,
      i,
      q,
      AllNotify-append s.worker.link.queue (replicate k data_ready) i.notify
          (AllNotify-data_ready k),
      has_quit-append s.worker.link.queue (replicate k data_ready),
    )

pub step-IsSound : (x : Step) (s : System) → IsTold x → IsSound s → IsSound (step x s)
unfolding step mgmt_step on_shutdown_command
step-IsSound (main_goes a told) s t i = rw t (main_step-IsSound s.main_at a s refl i)
step-IsSound (signal_goes sig) s t i = signal_step-IsSound s.signal_at sig s i
step-IsSound (worker_goes a) s t i = worker_step-IsSound s.worker_at a s refl i
step-IsSound mgmt_goes s t i = ground (arith, i)
step-IsSound mgmt_fails s t i = ground (arith, i)
step-IsSound (shutdown_command sent) s t i = ground (arith, i)
step-IsSound (datagram b lock sent) s t i = datagram-IsSound b lock sent s i
step-IsSound emptied s t i = cc
step-IsSound others_quit s t i = ground (
  arith,
  i,
  AllNotify-snoc s.worker.link.queue quit_message,
  has_quit-quit_message s.worker.link.queue,
)

pub run-IsSound : (xs : List Step) (s : System) → AllTold xs → IsSound s → IsSound (run xs s)
unfolding run
run-IsSound [] s t i = i
run-IsSound (x ∷ xs) s t i = run-IsSound xs (step x s) t.1 (step-IsSound x s t.0 i)

pub at_start-IsSound : (link : Link) → AllNotify link.queue → IsSound (at_start link)
at_start-IsSound link h = ground (arith, h)
