-- ===== src/Collector/Loop.antt =====
-- Collector/src/poll_io.c: run_event_loop, over the datagrams and the management requests.
use study_c.Prelude.{
  ℕ, zero, suc, ◌+◌, ◌-◌, ◌≤◌, ◌≡◌, refl, sym, ap, ◌∙◌, inl, inr, Bool, true, false, Option, none,
  some, List, [], ◌∷◌, ◌++◌, arith, Bytes, length, replicate, take, append-nil, append_assoc, pos,
  ◌==◌, Bool-cases,
}
use study_c.Ipc.{Notify}
use study_c.Shm.{SharedData, Locking, max_payload_size}
use study_c.Registry.Valid.{IsValid}
use study_c.Handlers.{Table, Process, invoke}
use study_c.Socket.{MgmtSocket, Io, process_one}
use study_c.Socket.Counts.{process_one-IsStep}
use study_c.Collector.{Link, handle_udp_read, notify_router, data_ready}

-- What the loop works on. The flag `g_keep_running` is a field of the process.
pub record Node : Type 0 where
  pub link : Link
  pub socket : Option MgmtSocket
  pub registry : Table
  pub process : Process

-- What is readable after a poll: a datagram (with the answers of handle_udp_read's calls), and a
-- request.
pub record Ready : Type 0 where
  pub datagram : Option (Option Bytes × Locking × Bool)
  pub request : Option Io

-- How a round goes: a signal's handler clears the flag, and poll returns EINTR if it waits; poll
-- fails otherwise; or it returns.
pub data Round : Type 0 where
  signalled broken : Round
  polled : Ready → Round

abbrev pub read_udp : Option (Option Bytes × Locking × Bool) → Link → Link
read_udp none l = l
read_udp (some (bytes, lock, sent)) l = handle_udp_read bytes lock sent l

-- `nfds` is 2 where the socket is not NULL.
abbrev pub serve : Option Io → Node → Option Node
serve request n = elim n.socket [
  | none ↦ some n
  | some s ↦ elim request [
    | none ↦ some n
    | some io ↦ elim (process_one invoke (pos 0) io s n.registry n.process) [
      | none ↦ none
      | some p ↦
          some (record n { socket = some p.socket; registry = p.registry; process = p.process })
    ]
  ]
]

abbrev pub on_ready : Ready → Node → Option Node
on_ready r n = serve r.request (record n { link = read_udp r.datagram n.link })

abbrev pub stop : Node → Node
stop n = record n { process = record (n.process) { keep_running = false } }

-- One round, by the test of the flag: whether the loop goes on.
abbrev pub turn : Bool → Round → Node → Option (Bool × Node)
turn false round n = some (false, n)
turn true signalled n = some (false, stop n)
turn true broken n = some (false, n)
turn true (polled r) n = elim (on_ready r n) [ none ↦ none | some n' ↦ some (true, n') ]

-- The loop, over the rounds given; the flag says whether it still runs. `none` is a call through
-- NULL.
unfoldable pub run_event_loop : List Round → Node → Option (Bool × Node)
run_event_loop [] n = some (n.process.keep_running, n)
run_event_loop (round ∷ rounds) n = elim (turn n.process.keep_running round n) [
  | none ↦ none
  | some (false, n') ↦ some (false, n')
  | some (true, n') ↦ run_event_loop rounds n'
]

-- A datagram adds one notification or none.
zero_plus : (m : ℕ) → m ≡ 0 + m
zero_plus m = omega arith

suc_plus : (k m : ℕ) → suc (k + m) ≡ suc k + m
suc_plus k m = omega arith

replicate-append : (k m : ℕ) (a : Notify) → replicate k a ++ replicate m a ≡ replicate (k + m) a
unfolding replicate
replicate-append zero m a = ap (λ j. replicate j a) (zero_plus m)
replicate-append (suc k) m a =
    ap (λ t. a ∷ t) (replicate-append k m a) ∙ ap (λ j. replicate j a) (suc_plus k m)

notify_router-queue :
    (w : Bool × Option SharedData) (sent : Bool) (l : Link)
    → (k : ℕ) × (k ≤ 1) × ((notify_router w sent l).queue ≡ l.queue ++ replicate k data_ready)
unfolding replicate
notify_router-queue (true, shared) true l = (1, omega arith, refl)
notify_router-queue (true, shared) false l = (0, omega arith, sym (append-nil l.queue))
notify_router-queue (false, shared) sent l = (0, omega arith, sym (append-nil l.queue))

pub read_udp-queue :
    (d : Option (Option Bytes × Locking × Bool)) (l : Link)
    → (k : ℕ) × (k ≤ 1) × ((read_udp d l).queue ≡ l.queue ++ replicate k data_ready)
unfolding handle_udp_read replicate
read_udp-queue none l = (0, omega arith, sym (append-nil l.queue))
read_udp-queue (some (none, lock, sent)) l = (0, omega arith, sym (append-nil l.queue))
read_udp-queue (some (some bytes, lock, sent)) l =
    elim (Bool-cases (length (take (max_payload_size - 1) bytes) == 0)) [
      | inl e ↦ rw e (0, omega arith, sym (append-nil l.queue))
      | inr e ↦ rw e (notify_router-queue _ sent l)
    ]

serve-at :
    (request : Option Io) (l : Link) (socket : Option MgmtSocket) (r : Table) (w : Process)
    → IsValid r
    → let n : Node = record { link = l; socket = socket; registry = r; process = w } in
      (n' : Node) × (serve request n ≡ some n') × IsValid n'.registry × (n'.link ≡ l)
serve-at request l none r w v = (_, refl, v, refl)
serve-at none l (some s) r w v = (_, refl, v, refl)
serve-at (some io) l (some s) r w v =
    let (p, e, st) = process_one-IsStep invoke (pos 0) io s r w v in
    (
      record { link = l; socket = some p.socket; registry = p.registry; process = p.process },
      rw (e, serve) refl,
      st.0,
      refl,
    )

replicate_add :
    (xs : List Notify) (a : Notify) (k m : ℕ)
    → (xs ++ replicate k a) ++ replicate m a ≡ xs ++ replicate (k + m) a
unfolding replicate
replicate_add xs a k m =
    append_assoc xs (replicate k a) (replicate m a) ∙ ap (λ t. xs ++ t) (replicate-append k m a)

-- What a part of the loop leaves: a valid registry, and at most `b` new notifications.
abbrev pub Adds : ℕ → Node → Node → Type 0
Adds b n n' =
    (k : ℕ) × IsValid n'.registry
    × (k ≤ b)
    × (n'.link.queue ≡ n.link.queue ++ replicate k data_ready)

Adds-refl : (b : ℕ) (n : Node) → IsValid n.registry → Adds b n n
unfolding replicate
Adds-refl b n v = (0, v, omega arith, sym (append-nil n.link.queue))

Adds-trans : (b : ℕ) (n m o : Node) → Adds 1 n m → Adds b m o → Adds (suc b) n o
Adds-trans b n m o (k, v, l, e) (k', v', l', e') = (
  k + k',
  v',
  omega (arith, l, l'),
  e' ∙ ap (λ q. q ++ replicate k' data_ready) e ∙ replicate_add n.link.queue data_ready k k',
)

turn-Adds :
    (b : Bool) (round : Round) (n : Node)
    → IsValid n.registry
    → (on : Bool) × (n' : Node) × (turn b round n ≡ some (on, n')) × Adds 1 n n'
turn-Adds false round n v = (false, n, refl, Adds-refl 1 n v)
turn-Adds true signalled n v = (false, stop n, refl, Adds-refl 1 n v)
turn-Adds true broken n v = (false, n, refl, Adds-refl 1 n v)
turn-Adds true (polled r) n v =
    let (n', e, v', l) =
      serve-at r.request (read_udp r.datagram n.link) n.socket n.registry n.process v in
    let (k, le, q) = read_udp-queue r.datagram n.link in
    (true, n', rw (e, turn) refl, (k, v', le, ap (λ x. x.queue) l ∙ q))

abbrev pub Ends : List Round → Node → Type 0
Ends rounds n =
    (on : Bool) × (n' : Node) × (run_event_loop rounds n ≡ some (on, n'))
    × Adds (length rounds) n n'

-- A loop whose first round has gone.
continues :
    (round : Round) (rounds : List Round) (n : Node) (on : Bool) (m : Node)
    → turn n.process.keep_running round n ≡ some (on, m)
    → Adds 1 n m
    → (IsValid m.registry → Ends rounds m)
    → Ends (round ∷ rounds) n
unfolding run_event_loop
continues round rounds n false m e a h =
    (false, m, rw (e, run_event_loop) refl, Adds-trans (length rounds) n m m a (Adds-refl _ m a.1))
continues round rounds n true m e a h =
    let (on, o, e', a') = h a.1 in
    (on, o, rw (e, run_event_loop) e', Adds-trans (length rounds) n m o a a')

-- The collector's loop, from a valid registry, over any number of rounds, whatever comes in them:
-- none of the rounds calls through a NULL handler, and behind them, whether the loop has ended by
-- then or still runs, the registry is valid, and the queue has grown only by notifications that
-- data is ready, one at most for each round.
pub run_event_loop-IsValid : (rounds : List Round) (n : Node) → IsValid n.registry → Ends rounds n
unfolding run_event_loop
run_event_loop-IsValid [] n v = (n.process.keep_running, n, refl, Adds-refl 0 n v)
run_event_loop-IsValid (round ∷ rounds) n v =
    let (on, m, e, a) = turn-Adds n.process.keep_running round n v in
    continues round rounds n on m e a (λ w. run_event_loop-IsValid rounds m w)
