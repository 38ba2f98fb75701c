-- ===== src/Router/Relay.antt =====
-- Router/src/router_worker.c. What the system calls answer at each round is the argument of the
-- round; the bytes that went to the viewer are kept in `tcp`, one entry for each send.
pub mod Text
pub mod Stop
use study_c.Prelude.{
  ℕ, zero, suc, ◌+◌, ◌-◌, Bool, true, false, Option, none, some, List, [], ◌∷◌, ◌++◌, Bytes, codes,
  c_str, take, replicate, ◌==◌, if◌then◌else◌,
}
use study_c.Ipc.{
  Notify, InternalMsg, msg_type_shm_notify, msg_type_shm_quit, send_fatal_event, send_signal_event,
}
use study_c.Shm.{Locking, Read, read, max_payload_size}
use study_c.Collector.{Link}

abbrev pub sigterm : ℕ
sigterm = 15

abbrev pub connect_max_retries : ℕ
connect_max_retries = 5

-- `char tcp_buf[MAX_PAYLOAD_SIZE + 64]`
abbrev pub tcp_buf_size : ℕ
tcp_buf_size = max_payload_size + 64

abbrev pub relay_prefix : Bytes
relay_prefix = codes "[TCP-RELAY] "

abbrev pub newline : ℕ
newline = 10

-- The string in `tcp_buf` after `snprintf(tcp_buf, sizeof(tcp_buf), "[TCP-RELAY] %s\n", payload)`;
-- its `strlen` bytes are sent.
unfoldable pub relay_text : Bytes → Bytes
relay_text payload = take (tcp_buf_size - 1) (relay_prefix ++ (c_str payload ++ (newline ∷ [])))

-- The outcome of `send`: all bytes taken, EPIPE or ECONNRESET, another error.
pub data Sending : Type 0 where
  sent disconnected hiccup : Sending

-- The first message of the type, taken out of the queue, as msgrcv does for a positive type.
unfoldable pub receive : ℕ → List Notify → Option (Notify × List Notify)
receive mtype [] = none
receive mtype (n ∷ ns) =
    let rest = receive mtype ns in
    if n.mtype == mtype
    then some (n, ns)
    else elim rest [ none ↦ none | some (m, ms) ↦ some (m, n ∷ ms) ]

-- The answers of one round: whether msgrcv succeeds, the lock of the segment, `send`, and whether
-- msgsnd to the main queue succeeds.
pub record Turn : Type 0 where
  pub received : Bool
  pub lock : Locking
  pub sending : Sending
  pub reported : Bool

pub record Worker : Type 0 where
  pub link : Link
  pub main_queue : List InternalMsg
  pub tcp : List Bytes

-- Whether the loop goes on, and the state.
abbrev pub after_send : Turn → Bytes → Sending → Worker → Bool × Worker
after_send t payload sent w = (true, record w { tcp = w.tcp ++ (relay_text payload ∷ []) })
after_send t payload disconnected w =
    (false, record w { main_queue = (send_signal_event t.reported w.main_queue sigterm).1 })
after_send t payload hiccup w = (true, w)

abbrev pub forward : Turn → Option Bytes → Worker → Bool × Worker
forward t none w = (true, w)
forward t (some payload) w = after_send t payload t.sending w

abbrev pub after_read : Turn → Read → Worker → Bool × Worker
after_read t r w = if r.done then forward t r.msg w else (true, w)

unfoldable pub on_notify : Turn → Notify → Worker → Bool × Worker
on_notify t n w =
    if n.shm_status_id == msg_type_shm_quit
    then (false, w)
    else after_read t
        (read max_payload_size w.link.shared t.lock true (some (replicate max_payload_size 0))) w

-- One round of the loop. Where no message waits, msgrcv blocks and nothing changes.
unfoldable pub worker_turn : Turn → Worker → Bool × Worker
worker_turn t w =
    if t.received
    then elim (receive msg_type_shm_notify w.link.queue) [
      | none ↦ (true, w)
      | some (n, rest) ↦ on_notify t n (record w { link = record (w.link) { queue = rest } })
    ]
    else (true, w)

-- The loop over the rounds given; the flag says whether it still runs.
unfoldable pub worker_run : List Turn → Worker → Bool × Worker
worker_run [] w = (true, w)
worker_run (t ∷ ts) w =
    let (going, w') = worker_turn t w in
    elim going [ true ↦ worker_run ts w' | false ↦ (false, w') ]

-- An attempt to connect: whether `connect` succeeds, and whether the shutdown pipe wakes the wait
-- that follows a failure.
pub record Attempt : Type 0 where
  pub accepted : Bool
  pub shutdown : Bool

pub data Connection : Type 0 where
  connected stopped exhausted : Connection

-- The retry loop, over the attempts left. Attempts that the list does not give fail.
unfoldable pub connect_loop : ℕ → List Attempt → Connection
connect_loop zero attempts = exhausted
connect_loop (suc left) [] = exhausted
connect_loop (suc left) (a ∷ attempts) =
    let retry = connect_loop left attempts in
    if a.accepted then connected else if a.shutdown then stopped else retry

-- After the retry loop: the relay loop, a plain return, or a fatal event.
abbrev pub connection_made : Connection → Bool → List Turn → Worker → Bool × Worker
connection_made connected reported turns w = worker_run turns w
connection_made stopped reported turns w = (false, w)
connection_made exhausted reported turns w = (
  false,
  record w {
    main_queue =
        (send_fatal_event reported w.main_queue
          (some (codes "router_worker: TCP connect failure after retries"))).1;
  },
)

-- `router_worker`; `opened` says whether `socket` succeeds, `reported` whether the message of a
-- failure gets into the main queue.
unfoldable pub router_worker : Bool → Bool → List Attempt → List Turn → Worker → Bool × Worker
router_worker opened reported attempts turns w =
    if opened
    then connection_made (connect_loop connect_max_retries attempts) reported turns w
    else (
      false,
      record w {
        main_queue =
            (send_fatal_event reported w.main_queue
              (some (codes "router_worker: socket open failure"))).1;
      },
    )
