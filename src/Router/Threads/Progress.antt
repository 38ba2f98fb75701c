-- ===== src/Router/Threads/Progress.antt =====
-- The steps of the other threads bring nothing farther from the end, and nearer where main waits.
use study_c.Prelude.{
  zero, suc, ◌≡◌, inl, inr, Bool, true, false, ◌||◌, List, arith, Option, none, some, Bytes, codes,
  Bool-cases, ◌==◌,
}
use study_c.Ipc.{InternalMsg, send_fatal_event}
use study_c.Router.Relay.{worker_turn, sigterm}
use study_c.Router.MainLoop.{sigint}
use study_c.Router.Sources.{Signal, wait_failed, caught, signal_round}
use study_c.Router.Threads.{
  System, join_mgmt, join_worker, join_signal, SignalAt, testing, waiting, WorkerAt, opening,
  trying, pausing, relaying, WorkerAnswer, signal_step, worker_step, mgmt_step, put_main_queue,
  give_up,
}
use study_c.Router.Threads.Queues.{
  has_final-append, to_final-append, worker_turn-IsTurn, Grows, Grows-same, send_signal_event-Grows,
  send_fatal_event-Grows,
}
use study_c.Router.Threads.Sound.{IsSound, is_over}
use study_c.Router.Threads.Measure.{is_stopping, Eases, Nears, is_ended}

signal_round-Grows : (sig : Signal) (q : List InternalMsg) → Grows q (signal_round sig q).1
unfolding signal_round
signal_round-Grows wait_failed q = Grows-same q
signal_round-Grows (caught n sent) q = elim (Bool-cases (n == sigint || n == sigterm)) [
  | inl e ↦ rw e (send_signal_event-Grows sent q n)
  | inr e ↦ rw e (send_signal_event-Grows sent q n)
]

-- More messages in the main queue bring nothing farther from the end.
grown-Eases :
    (s : System) (q : List InternalMsg)
    → is_stopping s ≡ true
    → Grows s.worker.main_queue q
    → Eases s (put_main_queue q s)
grown-Eases s q h (extra, e) =
    ground
      (arith, has_final-append s.worker.main_queue extra, to_final-append s.worker.main_queue extra)

pub signal_step-Eases :
    (g : SignalAt) (sig : Option Signal) (s : System)
    → s.signal_at ≡ g
    → is_stopping s ≡ true
    → Eases s (signal_step g sig s)
unfolding signal_step
signal_step-Eases testing sig s e h = ground arith
signal_step-Eases waiting none s e h = ground arith
signal_step-Eases waiting (some sig) s e h = ground (
  arith,
  grown-Eases s (signal_round sig s.worker.main_queue).1 h
      (signal_round-Grows sig s.worker.main_queue),
)
signal_step-Eases SignalAt.over sig s e h = ground arith

-- In its join the signal thread is cancelled and the flag is false.
pub signal_step-Nears :
    (g : SignalAt) (sig : Option Signal) (s : System)
    → s.signal_at ≡ g
    → s.main_at ≡ join_signal
    → is_ended g ≡ false
    → IsSound s
    → Nears s (signal_step g sig s)
unfolding signal_step
signal_step-Nears testing sig s e m n i = ground (arith, i)
signal_step-Nears waiting none s e m n i = ground (arith, i)
signal_step-Nears waiting (some sig) s e m n i = ground (arith, i)
signal_step-Nears SignalAt.over sig s e m n i = cc

-- A signal thread's step moves no other thread.
pub signal_step-frame :
    (g : SignalAt) (sig : Option Signal) (s : System)
    → let s' = signal_step g sig s in
      (s'.main_at ≡ s.main_at) × (s'.worker_at ≡ s.worker_at) × (s'.mgmt_over ≡ s.mgmt_over)
unfolding signal_step
signal_step-frame g sig s = ground arith

give_up-Eases :
    (reported : Bool) (text : Bytes) (s : System)
    → is_stopping s ≡ true
    → Eases s (give_up reported text s)
give_up-Eases reported text s h =
    let q = (send_fatal_event reported s.worker.main_queue (some text)).1 in
    ground
      (arith, grown-Eases s q h (send_fatal_event-Grows reported s.worker.main_queue (some text)))

pub worker_step-Eases :
    (p : WorkerAt) (a : WorkerAnswer) (s : System)
    → s.worker_at ≡ p
    → is_stopping s ≡ true
    → IsSound s
    → Eases s (worker_step p a s)
unfolding worker_step
worker_step-Eases opening a s e h i =
    ground (arith, give_up-Eases a.reported (codes "router_worker: socket open failure") s h)
worker_step-Eases (trying zero) a s e h i =
    give_up-Eases a.reported (codes "router_worker: TCP connect failure after retries") s h
worker_step-Eases (trying (suc n)) a s e h i = ground arith
worker_step-Eases (pausing n) a s e h i = ground arith
worker_step-Eases relaying a s e h i =
    let t = worker_turn-IsTurn a.turn s.worker i.notify in
    ground (arith, t.shrinks, grown-Eases s (worker_turn a.turn s.worker).1.main_queue h t.grows)
worker_step-Eases WorkerAt.over a s e h i = (omega arith, h)

pub worker_step-Nears :
    (p : WorkerAt) (a : WorkerAnswer) (s : System)
    → s.worker_at ≡ p
    → s.main_at ≡ join_worker
    → is_over p ≡ false
    → a.turn.received ≡ true
    → IsSound s
    → Nears s (worker_step p a s)
unfolding worker_step
worker_step-Nears opening a s e m n r i = ground arith
worker_step-Nears (trying zero) a s e m n r i = ground arith
worker_step-Nears (trying (suc k)) a s e m n r i = ground arith
worker_step-Nears (pausing k) a s e m n r i = ground arith
worker_step-Nears relaying a s e m n r i =
    let t = worker_turn-IsTurn a.turn s.worker i.notify in ground (arith, i, t.takes r)
worker_step-Nears WorkerAt.over a s e m n r i = cc

pub worker_step-frame :
    (p : WorkerAt) (a : WorkerAnswer) (s : System)
    → let s' = worker_step p a s in (s'.main_at ≡ s.main_at) × (s'.mgmt_over ≡ s.mgmt_over)
unfolding worker_step
worker_step-frame opening a s = ground arith
worker_step-frame (trying zero) a s = ground arith
worker_step-frame (trying (suc n)) a s = ground arith
worker_step-frame (pausing n) a s = ground arith
worker_step-frame relaying a s = ground arith
worker_step-frame WorkerAt.over a s = ground arith

pub mgmt_step-Eases : (b : Bool) (s : System) → is_stopping s ≡ true → Eases s (mgmt_step b s)
unfolding mgmt_step
mgmt_step-Eases b s h = ground arith

pub mgmt_step-Nears :
    (s : System)
    → s.main_at ≡ join_mgmt
    → s.mgmt_over ≡ false
    → IsSound s
    → Nears s (mgmt_step s.mgmt_over s)
unfolding mgmt_step
mgmt_step-Nears s m n i = ground (arith, i)

pub mgmt_step-frame : (b : Bool) (s : System) → (mgmt_step b s).main_at ≡ s.main_at
unfolding mgmt_step
mgmt_step-frame b s = ground arith
