-- ===== src/Router/Threads/Queues.antt =====
-- What the steps of the router's threads do to its two queues.
use study_c.Prelude.{
  ℕ, suc, ◌≤◌, ◌<◌, ◌≡◌, refl, sym, ◌⊎◌, inl, inr, Bool, true, false, not, ◌||◌, ◌==◌, Option, none,
  some, List, [], ◌∷◌, ◌++◌, arith, append-nil, length, if◌then◌else◌, Bool-cases, Bytes, replicate,
}
use study_c.Ipc.{
  Notify, InternalMsg, msg_type_shm_notify, msg_type_shm_quit, send_to_main, send_fatal_event,
  send_signal_event,
}
use study_c.Router.Relay.{
  Turn, Worker, receive, on_notify, worker_turn, after_read, after_send, forward, Sending, sigterm,
}
use study_c.Router.Relay.Stop.{AllNotify, receive-head, queue-worker_turn, worker_turn-quit}
use study_c.Router.MainLoop.{quit_message}
use study_c.Router.MainLoop.Shutdown.{ends_program}
use study_c.Shm.{Read, read, max_payload_size}

abbrev pub has_quit : List Notify → Bool
has_quit [] = false
has_quit (n ∷ ns) = n.shm_status_id == msg_type_shm_quit || has_quit ns

-- Whether an event that ends the program is in the main queue.
abbrev pub has_final : List InternalMsg → Bool
has_final [] = false
has_final (m ∷ ms) = ends_program m.event m || has_final ms

-- The number of messages up to and with the first of those.
abbrev pub to_final : List InternalMsg → ℕ
to_final [] = 0
to_final (m ∷ ms) = if ends_program m.event m then 1 else suc (to_final ms)

abbrev pub Grows : List InternalMsg → List InternalMsg → Type 0
Grows old new = (extra : List InternalMsg) × (new ≡ old ++ extra)

pub Grows-same : (q : List InternalMsg) → Grows q q
Grows-same q = ([], sym (append-nil q))

pub to_final-append :
    (q extra : List InternalMsg) → has_final q ≡ true → to_final (q ++ extra) ≡ to_final q
to_final-append [] extra h = cc
to_final-append (m ∷ q) extra h = ground (arith, to_final-append q extra)

pub has_final-append :
    (q extra : List InternalMsg) → has_final q ≡ true → has_final (q ++ extra) ≡ true
has_final-append [] extra h = cc
has_final-append (m ∷ q) extra h = ground (arith, has_final-append q extra)

pub has_quit-append : (q extra : List Notify) → has_quit q ≡ true → has_quit (q ++ extra) ≡ true
has_quit-append [] extra h = cc
has_quit-append (n ∷ q) extra h = ground (arith, has_quit-append q extra)

pub has_quit-quit_message : (q : List Notify) → has_quit (q ++ (quit_message ∷ [])) ≡ true
has_quit-quit_message [] = refl
has_quit-quit_message (n ∷ q) = ground (arith, has_quit-quit_message q)

pub AllNotify-snoc :
    (q : List Notify) (n : Notify)
    → AllNotify q
    → n.mtype ≡ msg_type_shm_notify
    → AllNotify (q ++ (n ∷ []))
AllNotify-snoc [] n h e = (e, tt)
AllNotify-snoc (m ∷ q) n h e = (h.0, AllNotify-snoc q n h.1 e)

send_to_main-Grows :
    (sent : Bool) (q : List InternalMsg) (m : InternalMsg)
    → Grows q (send_to_main sent q (some m)).1
unfolding send_to_main
send_to_main-Grows true q m = (m ∷ [], refl)
send_to_main-Grows false q m = Grows-same q

pub send_fatal_event-Grows :
    (sent : Bool) (q : List InternalMsg) (text : Option Bytes)
    → Grows q (send_fatal_event sent q text).1
unfolding send_fatal_event
send_fatal_event-Grows sent q text = send_to_main-Grows sent q _

pub send_signal_event-Grows :
    (sent : Bool) (q : List InternalMsg) (sig : ℕ) → Grows q (send_signal_event sent q sig).1
unfolding send_signal_event
send_signal_event-Grows sent q sig = send_to_main-Grows sent q _

after_send-Grows :
    (t : Turn) (p : Bytes) (s : Sending) (w : Worker)
    → Grows w.main_queue (after_send t p s w).1.main_queue
after_send-Grows t p Sending.sent w = Grows-same w.main_queue
after_send-Grows t p Sending.disconnected w =
    send_signal_event-Grows t.reported w.main_queue sigterm
after_send-Grows t p Sending.hiccup w = Grows-same w.main_queue

forward-Grows :
    (t : Turn) (m : Option Bytes) (w : Worker) → Grows w.main_queue (forward t m w).1.main_queue
forward-Grows t none w = Grows-same w.main_queue
forward-Grows t (some p) w = after_send-Grows t p t.sending w

after_read-Grows :
    (t : Turn) (r : Read) (w : Worker) → Grows w.main_queue (after_read t r w).1.main_queue
after_read-Grows t r w = elim (Bool-cases r.done) [
  | inl e ↦ rw e (forward-Grows t r.msg w)
  | inr e ↦ rw e (Grows-same w.main_queue)
]

on_notify-Grows :
    (t : Turn) (n : Notify) (w : Worker) → Grows w.main_queue (on_notify t n w).1.main_queue
unfolding on_notify
on_notify-Grows t n w = elim (Bool-cases (n.shm_status_id == msg_type_shm_quit)) [
  | inl e ↦ rw e (Grows-same w.main_queue)
  | inr e ↦ rw e (
      after_read-Grows t
        (read max_payload_size w.link.shared t.lock true (some (replicate max_payload_size 0))) w)
]

-- A round of the worker with a message to receive, and one without.
worker_turn-idle :
    (t : Turn) (w : Worker)
    → (t.received ≡ false) ⊎ (w.link.queue ≡ [])
    → worker_turn t w ≡ (true, w)
unfolding worker_turn receive
worker_turn-idle t w (inl h) = ground arith
worker_turn-idle t w (inr h) = ground arith

worker_turn-takes :
    (t : Turn) (w : Worker) (n : Notify) (ns : List Notify)
    → t.received ≡ true
    → n.mtype ≡ msg_type_shm_notify
    → w.link.queue ≡ n ∷ ns
    → worker_turn t w ≡ on_notify t n (record w { link = record (w.link) { queue = ns } })
unfolding worker_turn
worker_turn-takes t w n ns h e q = ground (arith, receive-head n ns e)

worker_turn-takes-Grows :
    (t : Turn) (w : Worker) (n : Notify) (ns : List Notify)
    → t.received ≡ true
    → n.mtype ≡ msg_type_shm_notify
    → w.link.queue ≡ n ∷ ns
    → Grows w.main_queue (worker_turn t w).1.main_queue
worker_turn-takes-Grows t w n ns h e q =
    rw (worker_turn-takes t w n ns h e q)
      (on_notify-Grows t n (record w { link = record (w.link) { queue = ns } }))

-- What a round of the worker does to the queues.
pub record IsTurn (w : Worker) (going : Bool) (w' : Worker) (received : Bool) : Type 0 where
  pub notify : AllNotify w'.link.queue
  pub grows : Grows w.main_queue w'.main_queue
  pub quit : has_quit w.link.queue ≡ true → (not going || has_quit w'.link.queue) ≡ true
  pub shrinks : length w'.link.queue ≤ length w.link.queue
  pub takes :
      received ≡ true → has_quit w.link.queue ≡ true → length w'.link.queue < length w.link.queue

worker_turn-IsTurn_at :
    (q : List Notify) (t : Turn) (w : Worker)
    → w.link.queue ≡ q
    → AllNotify q
    → IsTurn w (worker_turn t w).0 (worker_turn t w).1 t.received
worker_turn-IsTurn_at [] t w e h = rw (worker_turn-idle t w (inr e)) (record {
  notify = rw e tt;
  grows = Grows-same w.main_queue;
  quit = λ k. ground (arith, k);
  shrinks = omega arith;
  takes = λ r k. ground arith;
})
worker_turn-IsTurn_at (n ∷ ns) t w e h = elim (Bool-cases t.received) [
  | inr r ↦ rw (worker_turn-idle t w (inl r)) (record {
    notify = rw e h;
    grows = Grows-same w.main_queue;
    quit = λ k. ground (arith, k);
    shrinks = omega arith;
    takes = λ r' k. ground arith;
  })
  | inl r ↦
      let q' = queue-worker_turn t w n ns r h.0 e in
      record {
        notify = rw q' h.1;
        grows = worker_turn-takes-Grows t w n ns r h.0 e;
        quit = λ k. ground (arith, q', worker_turn-quit t w n ns r h.0);
        shrinks = ground (arith, q');
        takes = λ r' k. ground (arith, q');
      }
]

pub worker_turn-IsTurn :
    (t : Turn) (w : Worker)
    → AllNotify w.link.queue
    → IsTurn w (worker_turn t w).0 (worker_turn t w).1 t.received
worker_turn-IsTurn t w h = worker_turn-IsTurn_at w.link.queue t w refl h
