-- ===== src/Examples/Link.antt =====
-- Messages through the shared segment, the internal queue and the relay.
use study_c.Prelude.{
  ℕ, zero, suc, take, ◌<◌, ◌≤◌, ◌≡◌, refl, true, some, List, [], ◌∷◌, ◌++◌, arith, pos, Bytes,
  codes, c_str, length, replicate,
}
use study_c.Shm.{SharedData, Locking, read, write, safe_lock, max_payload_size}
use study_c.Shm.RoundTrip.{ReadsBack, read-write}
use study_c.Collector.{handle_udp_read}
use study_c.Router.Relay.{Turn, Sending, worker_turn}
use study_c.Router.Relay.Text.{line}
use study_c.Pipeline.Shown.{datagram_shown}
use study_c.Viewer.Display.{display, concat, frames, AllPositive, AllPieces}
use study_c.Pipeline.{Succeeds, text_of, link_of, worker_of, datagram_relayed, datagram_overwritten}

abbrev hello : Bytes
hello = codes "hello"

abbrev bye : Bytes
bye = codes "bye"

abbrev segment : SharedData
segment = record { status_code = pos 0; message = replicate max_payload_size 0 }

locks : safe_lock Locking.acquired ≡ true
unfolding safe_lock
locks = refl

owner : safe_lock Locking.owner_died ≡ true
unfolding safe_lock
owner = refl

read-write_example :
    ((write 1024 (some segment) Locking.owner_died (pos 100) hello).0 ≡ true)
    × ReadsBack 1023 (pos 100) hello (
        read 1024
          (write 1024 (some segment) Locking.owner_died (pos 100) hello).1
          Locking.acquired
          true
          (some []))
read-write_example =
    read-write 1023 segment Locking.owner_died Locking.acquired (pos 100) hello [] owner locks

short : length (c_str hello) ≤ 1023
unfolding c_str
short = omega arith

abbrev good : Turn
good = record { received = true; lock = Locking.acquired; sending = Sending.sent; reported = true }

good-Succeeds : Succeeds good
unfolding safe_lock
good-Succeeds = (refl, refl, refl)

datagram_relayed_example :
    let l = handle_udp_read (some hello) Locking.acquired true (link_of segment []) in
    let (going, w) = worker_turn good (worker_of l [] []) in
    (going ≡ true) × (w.tcp ≡ [] ++ (line (text_of hello) ∷ [])) × (w.link.queue ≡ [])
datagram_relayed_example =
    datagram_relayed hello Locking.acquired good segment [] [] (omega arith) locks good-Succeeds

replicate-AllPositive : (k n : ℕ) → 0 < n → AllPositive (replicate k n)
unfolding replicate
replicate-AllPositive zero n h = tt
replicate-AllPositive (suc k) n h = (h, replicate-AllPositive k n h)

hello-line : length (line (text_of hello)) ≤ length (replicate {A = ℕ} 64 3)
unfolding replicate c_str take
hello-line = omega arith

datagram_shown_example :
    let l = handle_udp_read (some hello) Locking.acquired true (link_of segment []) in
    let (going, w) = worker_turn good (worker_of l [] []) in
    (pieces : List Bytes) × ((display (replicate 64 3) (concat w.tcp)).0 ≡ frames pieces)
    × (concat pieces ≡ line (text_of hello))
    × AllPieces pieces
datagram_shown_example =
    datagram_shown hello Locking.acquired good segment [] (replicate 64 3) (omega arith) locks
      good-Succeeds (replicate-AllPositive 64 3 (omega arith)) hello-line

datagram_overwritten_example :
    let l =
      handle_udp_read
        (some bye)
        Locking.acquired
        true
        (handle_udp_read (some hello) Locking.acquired true (link_of segment [])) in
    let (going, w) = worker_turn good (worker_of l [] []) in
    let (going', w') = worker_turn good w in
    (w'.tcp ≡ [] ++ (line (text_of bye) ∷ line (text_of bye) ∷ [])) × (w'.link.queue ≡ [])
datagram_overwritten_example =
    datagram_overwritten hello bye Locking.acquired Locking.acquired good good segment [] []
      (omega arith) (omega arith) locks locks good-Succeeds good-Succeeds
