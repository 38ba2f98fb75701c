-- ===== src/Router/Sources/Events.antt =====
-- Which events the two threads make, as the main loop sees them.
use study_c.Prelude.{
  ℕ, ◌≡◌, refl, ap, sym, ◌∙◌, inl, inr, ◌⊎◌, Bool, true, false, Option, none, some, List, [], ◌∷◌,
  ◌++◌, ◌==◌, append_assoc, append-nil, Bytes, Bool-cases, length, take, str_eq, ◌-◌,
}
use study_c.Ipc.{
  InternalMsg, EventType, build_internal_msg, send_to_main, send_udp_event, send_signal_event,
}
use study_c.Router.Relay.{sigterm}
use study_c.Router.MainLoop.{sigint, Router, Arrival, arrived, event_loop}
use study_c.Router.MainLoop.Shutdown.{ends_program, NoneFinal, last_round, event_loop_ends}
use study_c.Router.Sources.{
  Wake, datagram, select_interrupted, select_failed, shutdown, idle, recv_interrupted, recv_failed,
  on_datagram, udp_round, udp_loop, udp_buf_size, udp_quit_cmd, Signal, caught, signal_round,
  signal_loop,
}

-- No message of the list ends the main loop.
abbrev pub AllHarmless : List InternalMsg → Type 0
AllHarmless [] = Unit {0}
AllHarmless (m ∷ ms) = (ends_program m.event m ≡ false) × AllHarmless ms

-- The queue has grown by messages that do not end the main loop.
abbrev pub GrowsHarmless : List InternalMsg → List InternalMsg → Type 0
GrowsHarmless old new = (added : List InternalMsg) × (new ≡ old ++ added) × AllHarmless added

GrowsHarmless-refl : (q : List InternalMsg) → GrowsHarmless q q
GrowsHarmless-refl q = ([], sym (append-nil q), tt)

AllHarmless-append :
    (xs ys : List InternalMsg) → AllHarmless xs → AllHarmless ys → AllHarmless (xs ++ ys)
AllHarmless-append [] ys h k = k
AllHarmless-append (x ∷ xs) ys h k = (h.0, AllHarmless-append xs ys h.1 k)

GrowsHarmless-trans :
    (p q r : List InternalMsg) → GrowsHarmless p q → GrowsHarmless q r → GrowsHarmless p r
GrowsHarmless-trans p q r (a, e, h) (b, f, k) =
    (a ++ b, f ∙ ap (λ t. t ++ b) e ∙ append_assoc p a b, AllHarmless-append a b h k)

send_udp_event_harmless :
    (sent : Bool) (q : List InternalMsg) (text : Option Bytes)
    → GrowsHarmless q (send_udp_event sent q text).1
unfolding send_udp_event send_to_main build_internal_msg
send_udp_event_harmless true q text =
    (build_internal_msg EventType.ev_udp text 0 ∷ [], refl, (refl, tt))
send_udp_event_harmless false q text = GrowsHarmless-refl q

on_datagram_harmless :
    (bytes : Bytes) (sent : Bool) (q : List InternalMsg)
    → GrowsHarmless q (on_datagram bytes sent q)
on_datagram_harmless bytes sent q =
    let received = take (udp_buf_size - 1) bytes in
    elim (Bool-cases (length received == 0)) [
      | inl e ↦ rw e (GrowsHarmless-refl q)
      | inr e ↦ rw e (elim (Bool-cases (str_eq (received ++ (0 ∷ [])) udp_quit_cmd)) [
        | inl f ↦ rw f (GrowsHarmless-refl q)
        | inr f ↦ rw f (send_udp_event_harmless sent q (some (received ++ (0 ∷ []))))
      ])
    ]

udp_round_harmless : (wake : Wake) (q : List InternalMsg) → GrowsHarmless q (udp_round wake q).1
unfolding udp_round
udp_round_harmless (datagram bytes sent) q = on_datagram_harmless bytes sent q
udp_round_harmless select_interrupted q = GrowsHarmless-refl q
udp_round_harmless select_failed q = GrowsHarmless-refl q
udp_round_harmless shutdown q = GrowsHarmless-refl q
udp_round_harmless idle q = GrowsHarmless-refl q
udp_round_harmless recv_interrupted q = GrowsHarmless-refl q
udp_round_harmless recv_failed q = GrowsHarmless-refl q

-- Nothing that arrives over UDP, "QUIT" included, ends the router: whatever the thread receives, it
-- only appends messages to the main queue that the main loop passes over.
pub udp_loop_harmless :
    (rounds : List (Bool × Wake)) (q : List InternalMsg) → GrowsHarmless q (udp_loop rounds q).1
unfolding udp_loop
udp_loop_harmless [] q = GrowsHarmless-refl q
udp_loop_harmless ((false, wake) ∷ rounds) q = GrowsHarmless-refl q
udp_loop_harmless ((true, wake) ∷ rounds) q = elim (Bool-cases ((udp_round wake q).0)) [
  | inl e ↦
      rw (udp_loop, e)
        (GrowsHarmless-trans q (udp_round wake q).1 (udp_loop rounds (udp_round wake q).1).1
          (udp_round_harmless wake q) (udp_loop_harmless rounds (udp_round wake q).1))
  | inr e ↦ rw (udp_loop, e) (udp_round_harmless wake q)
]

-- A caught SIGINT or SIGTERM whose message is sent ends the signal thread and the main loop: the
-- thread appends one message, and a main loop that runs, gets only messages that do not end it and
-- then this one, ends with it.
pub signal_ends_loop :
    (sig : ℕ) (rounds : List (Bool × Signal)) (q : List InternalMsg) (before rest : List Arrival)
    (told : Bool) (r : Router)
    → (sig ≡ sigint) ⊎ (sig ≡ sigterm)
    → r.keep_running ≡ true
    → NoneFinal before
    → (m : InternalMsg) × (signal_loop ((true, caught sig true) ∷ rounds) q
        ≡ (false, q ++ (m ∷ [])))
      × (event_loop (before ++ (arrived m told ∷ rest)) r ≡ (false, last_round (arrived m told) r))
unfolding signal_loop signal_round send_signal_event send_to_main
signal_ends_loop sig rounds q before rest told r (inl e) k h =
    let m = build_internal_msg EventType.ev_signal none sig in
    (
      m,
      rw e refl,
      event_loop_ends before rest (arrived m told) r k h (unfold build_internal_msg in rw e refl),
    )
signal_ends_loop sig rounds q before rest told r (inr e) k h =
    let m = build_internal_msg EventType.ev_signal none sig in
    (
      m,
      rw e refl,
      event_loop_ends before rest (arrived m told) r k h (unfold build_internal_msg in rw e refl),
    )
