-- ===== src/Router/Relay/Text.antt =====
-- The line that the worker sends for a message of the segment.
use study_c.Prelude.{
  ◌-◌, ◌≤◌, ◌≡◌, ◌≢◌, ap, ◌∙◌, true, some, List, [], ◌∷◌, ◌++◌, arith, Bytes, c_str, take, length,
  length-append, take_of_length_le, snprintf_str, replicate,
}
use study_c.Ipc.{Notify, msg_type_shm_notify, msg_type_shm_quit}
use study_c.Shm.{SharedData, safe_lock, read, max_payload_size}
use study_c.Shm.RoundTrip.{c_str-read_msg}
use study_c.Router.Relay.{
  relay_text, relay_prefix, newline, tcp_buf_size, Turn, Sending, Worker, on_notify, worker_turn,
  receive,
}

-- The line for a text.
abbrev pub line : Bytes → Bytes
line text = relay_prefix ++ (text ++ (newline ∷ []))

-- The 1088 bytes of `tcp_buf` are enough: no message of the segment is cut.
pub relay_text-line :
    (payload : Bytes) → length (c_str payload) ≤ 1023 → relay_text payload ≡ line (c_str payload)
unfolding relay_text
relay_text-line payload h =
    take_of_length_le (tcp_buf_size - 1) (line (c_str payload))
      (omega (arith, length-append (c_str payload) (newline ∷ [])))

-- A round in which a data notification is received, the segment is locked and `send` takes the
-- bytes, for a message that is terminated within its 1024 bytes: the worker goes on, sends the line
-- for the message, and takes the notification out of the queue; nothing else changes.
pub worker_turn-line :
    (t : Turn) (w : Worker) (n : Notify) (rest : List Notify) (shared : SharedData)
    → t.received ≡ true
    → safe_lock t.lock ≡ true
    → t.sending ≡ Sending.sent
    → w.link.shared ≡ some shared
    → length (c_str shared.message) ≤ 1023
    → receive msg_type_shm_notify w.link.queue ≡ some (n, rest)
    → n.shm_status_id ≢ msg_type_shm_quit
    → worker_turn t w ≡ (
      true,
      record w {
        link = record (w.link) { queue = rest };
        tcp = w.tcp ++ (line (c_str shared.message) ∷ []);
      },
    )
unfolding worker_turn on_notify read
worker_turn-line t w n rest shared hr hl hs hw hm hq hn =
    let e : relay_text
          (snprintf_str (replicate max_payload_size 0) (take 1023 shared.message) max_payload_size)
        ≡ line (c_str shared.message) =
      relay_text-line _
        (rw (c_str-read_msg 1023 shared.message (replicate max_payload_size 0) hm) hm)
      ∙ ap line (c_str-read_msg 1023 shared.message (replicate max_payload_size 0) hm) in
    ground (arith, e)
