-- ===== src/Pipeline.antt =====
-- The way of a datagram from the collector's socket to the bytes that the router sends to the
-- viewer: Collector/src/poll_io.c, SHM/src/shm_api.c and Router/src/router_worker.c together.
pub mod Shown
use study_c.Prelude.{
  ◌≤◌, ◌<◌, ◌≡◌, refl, ◌∙◌, true, some, List, [], ◌∷◌, ◌++◌, arith, Bytes, c_str, take, length,
  length-take, pos, snprintf_str, c_str-snprintf_str, c_str-append_nul, length-c_str-le,
  take_of_length_le, ap, append_assoc,
}
use study_c.Ipc.{Notify, InternalMsg, msg_type_shm_notify}
use study_c.Shm.{SharedData, Locking, safe_lock, write, max_payload_size}
use study_c.Collector.{Link, data_ready, status_id, handle_udp_read}
use study_c.Router.Relay.{Turn, Sending, Worker, receive, worker_turn}
use study_c.Router.Relay.Text.{line, worker_turn-line}

-- The string of a datagram, of which recvfrom takes 1023 bytes.
abbrev pub text_of : Bytes → Bytes
text_of datagram = c_str (take 1023 datagram)

-- The segment after the datagram is written to it.
abbrev holding : SharedData → Bytes → SharedData
holding shared datagram = record shared {
  status_code = pos status_id;
  message = snprintf_str shared.message (take 1023 datagram ++ (0 ∷ [])) max_payload_size;
}

length-text_of : (datagram : Bytes) → length (text_of datagram) ≤ 1023
length-text_of datagram =
    omega (arith, length-c_str-le (take 1023 datagram), length-take 1023 datagram)

message-holding :
    (shared : SharedData) (datagram : Bytes)
    → c_str (holding shared datagram).message ≡ text_of datagram
message-holding shared datagram =
    c_str-snprintf_str shared.message (take 1023 datagram ++ (0 ∷ [])) 1023
    ∙ ap (take 1023) (c_str-append_nul (take 1023 datagram) [])
    ∙ take_of_length_le 1023 (text_of datagram) (length-text_of datagram)

handle_udp_read-holding :
    (d : Bytes) (lock : Locking) (l : Link) (shared : SharedData)
    → 0 < length d
    → safe_lock lock ≡ true
    → l.shared ≡ some shared
    → handle_udp_read (some d) lock true l
      ≡ record { shared = some (holding shared d); queue = l.queue ++ (data_ready ∷ []) }
unfolding handle_udp_read write
handle_udp_read-holding d lock l shared h hl hs = ground (arith, length-take 1023 d)

-- A round in which all calls succeed.
abbrev pub Succeeds : Turn → Type 0
Succeeds t = (t.received ≡ true) × (safe_lock t.lock ≡ true) × (t.sending ≡ Sending.sent)

-- The link and the worker with the parts given.
abbrev pub link_of : SharedData → List Notify → Link
link_of shared queue = record { shared = some shared; queue = queue }

abbrev pub worker_of : Link → List InternalMsg → List Bytes → Worker
worker_of l main_queue tcp = record { link = l; main_queue = main_queue; tcp = tcp }

receive-data_ready :
    (rest : List Notify) → receive msg_type_shm_notify (data_ready ∷ rest) ≡ some (data_ready, rest)
unfolding receive
receive-data_ready rest = refl

-- The round on a segment that holds a datagram.
turn-holding :
    (t : Turn) (mq : List InternalMsg) (tcp : List Bytes) (d : Bytes) (shared : SharedData)
    (rest : List Notify)
    → Succeeds t
    → worker_turn t (worker_of (link_of (holding shared d) (data_ready ∷ rest)) mq tcp)
      ≡ (true, worker_of (link_of (holding shared d) rest) mq (tcp ++ (line (text_of d) ∷ [])))
turn-holding t mq tcp d shared rest s =
    worker_turn-line t (worker_of (link_of (holding shared d) (data_ready ∷ rest)) mq tcp)
      data_ready rest (holding shared d) (s.0) (s.1) (s.2) refl
      (rw (message-holding shared d) (length-text_of d)) (receive-data_ready rest) (omega arith)
    ∙ ap (λ x. (true, worker_of (link_of (holding shared d) rest) mq (tcp ++ (line x ∷ []))))
        (message-holding shared d)

-- One datagram with at least one byte: with an empty queue and no failing call, the next round of
-- the router sends the line for the datagram's text (its bytes up to the first NUL, at most 1023),
-- and leaves the queue empty.
pub datagram_relayed :
    (d : Bytes) (lock : Locking) (t : Turn) (shared : SharedData) (mq : List InternalMsg)
    (tcp : List Bytes)
    → 0 < length d
    → safe_lock lock ≡ true
    → Succeeds t
    → let l = handle_udp_read (some d) lock true (link_of shared []) in
      let (going, w) = worker_turn t (worker_of l mq tcp) in
      (going ≡ true) × (w.tcp ≡ tcp ++ (line (text_of d) ∷ [])) × (w.link.queue ≡ [])
datagram_relayed d lock t shared mq tcp h hl s =
    rw
      (
        handle_udp_read-holding d lock (link_of shared []) shared h hl refl,
        turn-holding t mq tcp d shared [] s,
      )
      (refl, refl, refl)

-- Two datagrams, neither empty, before the router's next round, with an empty queue before them and
-- no failing call: the segment holds one message only, so two rounds
-- send the line of the second datagram twice, and nothing of the first.
pub datagram_overwritten :
    (d d' : Bytes) (lock lock' : Locking) (t t' : Turn) (shared : SharedData)
    (mq : List InternalMsg) (tcp : List Bytes)
    → 0 < length d
    → 0 < length d'
    → safe_lock lock ≡ true
    → safe_lock lock' ≡ true
    → Succeeds t
    → Succeeds t'
    → let l =
        handle_udp_read
          (some d')
          lock'
          true
          (handle_udp_read (some d) lock true (link_of shared [])) in
      let (going, w) = worker_turn t (worker_of l mq tcp) in
      let (going', w') = worker_turn t' w in
      (w'.tcp ≡ tcp ++ (line (text_of d') ∷ line (text_of d') ∷ [])) × (w'.link.queue ≡ [])
datagram_overwritten d d' lock lock' t t' shared mq tcp h h' hl hl' s s' =
    rw
      (
        handle_udp_read-holding d lock (link_of shared []) shared h hl refl,
        handle_udp_read-holding d' lock' (link_of (holding shared d) (data_ready ∷ []))
            (holding shared d) h' hl' refl,
        turn-holding t mq tcp d' (holding shared d) (data_ready ∷ []) s,
        turn-holding t' mq (tcp ++ (line (text_of d') ∷ [])) d' (holding shared d) [] s',
      )
      (append_assoc tcp (line (text_of d') ∷ []) (line (text_of d') ∷ []), refl)
