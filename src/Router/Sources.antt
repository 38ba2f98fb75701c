-- ===== src/Router/Sources.antt =====
-- The threads that put events into the router's main queue: Router/src/udp_worker.c and
-- Router/src/signal_worker.c. Each round is what the loop's test of `g_keep_running` sees and what
-- its system calls answer; `sent` says whether msgsnd succeeds.
pub mod Events
use study_c.Prelude.{
  ℕ, ◌-◌, Bool, true, false, List, [], ◌∷◌, ◌++◌, ◌||◌, ◌&&◌, ◌==◌, Bytes, codes, str_eq, take,
  length, if◌then◌else◌, Option, some,
}
use study_c.Ipc.{InternalMsg, send_udp_event, send_signal_event}
use study_c.Router.Relay.{sigterm}
use study_c.Router.MainLoop.{sigint}

-- `UDP_QUIT_CMD`
abbrev pub udp_quit_cmd : Bytes
udp_quit_cmd = codes "QUIT"

-- `char buf[256]`
abbrev pub udp_buf_size : ℕ
udp_buf_size = 256

-- How a round of the UDP thread goes: select fails by EINTR or otherwise, the shutdown pipe is
-- readable, nothing is, or the socket is, and recvfrom is interrupted, fails, or takes a datagram.
pub data Wake : Type 0 where
  select_interrupted select_failed shutdown idle recv_interrupted recv_failed : Wake
  datagram : Bytes → Bool → Wake

-- The lines behind a successful recvfrom, of at most `sizeof(buf) - 1` bytes: the queue they leave.
-- The NUL is stored behind the bytes.
abbrev pub on_datagram : Bytes → Bool → List InternalMsg → List InternalMsg
on_datagram bytes sent queue =
    let buf = take (udp_buf_size - 1) bytes ++ (0 ∷ []) in
    if length (take (udp_buf_size - 1) bytes) == 0
    then queue
    else if str_eq buf udp_quit_cmd
    then queue
    else (send_udp_event sent queue (some buf)).1

-- Whether the loop goes on, and the queue.
unfoldable pub udp_round : Wake → List InternalMsg → Bool × List InternalMsg
udp_round select_interrupted queue = (true, queue)
udp_round select_failed queue = (false, queue)
udp_round shutdown queue = (false, queue)
udp_round idle queue = (true, queue)
udp_round recv_interrupted queue = (true, queue)
udp_round recv_failed queue = (false, queue)
udp_round (datagram bytes sent) queue = (true, on_datagram bytes sent queue)

-- The loop of `udp_worker` over the rounds given; the flag says whether it still runs.
unfoldable pub udp_loop : List (Bool × Wake) → List InternalMsg → Bool × List InternalMsg
udp_loop [] queue = (true, queue)
udp_loop ((keep_running, wake) ∷ rounds) queue = elim keep_running [
  | false ↦ (false, queue)
  | true ↦
      let (going, queue') = udp_round wake queue in
      elim going [ true ↦ udp_loop rounds queue' | false ↦ (false, queue') ]
]

-- What sigwait answers.
pub data Signal : Type 0 where
  wait_failed : Signal
  caught : ℕ → Bool → Signal

unfoldable pub signal_round : Signal → List InternalMsg → Bool × List InternalMsg
signal_round wait_failed queue = (false, queue)
signal_round (caught sig sent) queue =
    let queue' = (send_signal_event sent queue sig).1 in
    if sig == sigint || sig == sigterm then (false, queue') else (true, queue')

-- The loop of `signal_worker`.
unfoldable pub signal_loop : List (Bool × Signal) → List InternalMsg → Bool × List InternalMsg
signal_loop [] queue = (true, queue)
signal_loop ((keep_running, signal) ∷ rounds) queue = elim keep_running [
  | false ↦ (false, queue)
  | true ↦
      let (going, queue') = signal_round signal queue in
      elim going [ true ↦ signal_loop rounds queue' | false ↦ (false, queue') ]
]

-- `udp_worker`, by whether socket and bind succeed and whether the shutdown pipe is there.
unfoldable pub udp_worker :
    Bool → Bool → Bool → List (Bool × Wake) → List InternalMsg → Bool × List InternalMsg
udp_worker opened bound piped rounds queue =
    if opened && bound && piped then udp_loop rounds queue else (false, queue)

-- `signal_worker`, by whether pthread_sigmask succeeds: whether the semaphore is posted for which
-- main waits, and what the loop leaves.
unfoldable pub signal_worker :
    Bool → List (Bool × Signal) → List InternalMsg → Bool × (Bool × List InternalMsg)
signal_worker masked rounds queue =
    if masked then (true, signal_loop rounds queue) else (false, (false, queue))
