-- ===== src/Pipeline/Shown.antt =====
-- The way of datagrams on to what the viewer prints: Viewer/src/tcp_worker.c behind the collector
-- and the router.
use study_c.Prelude.{
  ◌≤◌, ◌<◌, ◌≡◌, refl, ap, ◌∙◌, true, some, List, [], ◌∷◌, ◌++◌, Bytes, ℕ, c_str, length,
  append-nil, c_str-c_str, take,
}
use study_c.Ipc.{InternalMsg}
use study_c.Shm.{SharedData, Locking, safe_lock}
use study_c.Collector.{handle_udp_read}
use study_c.Router.Relay.{Turn, worker_turn, relay_prefix, newline}
use study_c.Router.Relay.Text.{line}
use study_c.Viewer.Display.{display, concat, frames, AllPositive, AllPieces, display-frames}
use study_c.Printing.Pieces.{c_str-append}
use study_c.Pipeline.{text_of, Succeeds, link_of, worker_of, datagram_relayed}

newline-clean : c_str (newline ∷ []) ≡ newline ∷ []
unfolding c_str
newline-clean = refl

prefix-clean : c_str relay_prefix ≡ relay_prefix
unfolding c_str
prefix-clean = refl

-- A line has no NUL.
line-clean : (d : Bytes) → c_str (line (text_of d)) ≡ line (text_of d)
line-clean d =
    c_str-append relay_prefix (text_of d ++ (newline ∷ [])) prefix-clean
    ∙ ap (λ t. relay_prefix ++ t)
        (c_str-append (text_of d) (newline ∷ []) (c_str-c_str (take 1023 d))
          ∙ ap (λ t. text_of d ++ t) newline-clean)

-- From the collector's socket to the viewer's screen: with an empty queue, no failing call and
-- nothing sent before, the text of a nonempty datagram (its bytes up to the first NUL, at most
-- 1023) with the router's prefix and a newline is what the viewer prints, cut into the pieces that
-- TCP delivers it in, with the dashes and the heading around each; no piece is empty or has more
-- than 2047 bytes. Bytes arrive at each recv, and there are as many calls as the line has bytes.
pub datagram_shown :
    (d : Bytes) (lock : Locking) (t : Turn) (shared : SharedData) (mq : List InternalMsg)
    (arrivals : List ℕ)
    → 0 < length d
    → safe_lock lock ≡ true
    → Succeeds t
    → AllPositive arrivals
    → length (line (text_of d)) ≤ length arrivals
    → let l = handle_udp_read (some d) lock true (link_of shared []) in
      let (going, w) = worker_turn t (worker_of l mq []) in
      (pieces : List Bytes) × ((display arrivals (concat w.tcp)).0 ≡ frames pieces)
      × (concat pieces ≡ line (text_of d))
      × AllPieces pieces
datagram_shown d lock t shared mq arrivals h hl s p n =
    let (going, sent, empty) = datagram_relayed d lock t shared mq [] h hl s in
    let one : concat (line (text_of d) ∷ []) ≡ line (text_of d) = append-nil (line (text_of d)) in
    let (pieces, framed, joined, small) =
      display-frames arrivals (line (text_of d)) (line-clean d) p n in
    (
      pieces,
      ap (λ tcp. (display arrivals (concat tcp)).0) sent
          ∙ ap (λ x. (display arrivals x).0) one
          ∙ framed,
      joined,
      small,
    )
