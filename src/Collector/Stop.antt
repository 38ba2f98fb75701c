-- ===== src/Collector/Stop.antt =====
-- How the SHUTDOWN command ends the collector's loop.
use study_c.Prelude.{
  ◌≡◌, refl, ap, ◌∙◌, Bool, true, false, Option, none, some, List, [], ◌∷◌, ℤ, pos, is_negative,
  ret_ok,
}
use study_c.Protocol.{Request, Response, request_validate, target_region, zero_response}
use study_c.Registry.Valid.{IsValid}
use study_c.Registry.Views.{view}
use study_c.Registry.Dispatch.{dispatch}
use study_c.Handlers.{Table, Process, Handler, Context, handler_shutdown, collector, invoke}
use study_c.Handlers.Serve.{dispatch-IsReply, after}
use study_c.Socket.{MgmtSocket, Io, Processed, process_one, respond, count_request, nothing_done}
use study_c.Collector.{Link}
use study_c.Collector.Loop.{Node, Ready, Round, polled, read_udp, serve, turn, run_event_loop}

respond-process :
    (delivered : Bool) (s : MgmtSocket) (result : ℤ) (resp : Option Response) (r : Table)
    (w : Process)
    → (p : Processed Handler Context Process) × (respond delivered s (some (result, resp, r, w))
        ≡ some p)
      × (p.process ≡ w)
respond-process true s result resp r w = (_, refl, refl)
respond-process false s result resp r w = (_, refl, refl)

-- `receive`, by what is received.
abbrev receive_by :
    Io → MgmtSocket → Table → Process → Option Request → Option (Processed Handler Context Process)
receive_by io s r w m = elim m [
  | none ↦ some (nothing_done s r w)
  | some req ↦
      respond io.delivered (count_request s) (dispatch invoke (some req) (some zero_response) r w)
]

-- Serving a request that is bound to SHUTDOWN clears the flag.
served :
    (io : Io) (s : MgmtSocket) (r : Table) (w : Process) (req : Request) (ctx : Context)
    → IsValid r
    → is_negative s.socket_fd ≡ false
    → io.received ≡ some req
    → request_validate (some req) ≡ true
    → view r req.cmd_type (target_region req) ≡ some (some (handler_shutdown collector), some ctx)
    → (p : Processed Handler Context Process) × (process_one invoke (pos 0) io s r w ≡ some p)
      × (p.process.keep_running ≡ false)
unfolding process_one
served io s r w req ctx v fd rec ok b =
    let (resp, r', e, v', reply, l, cnt) =
      dispatch-IsReply (handler_shutdown collector) ctx req zero_response r w v ok b in
    let (p, q, k) =
      respond-process io.delivered (count_request s) ret_ok (some resp) r'
        (after (handler_shutdown collector) w) in
    (
      p,
      (rw fd refl)
          ∙ ap (λ m. receive_by io s r w m) rec
          ∙ ap (respond io.delivered (count_request s)) e
          ∙ q,
      ap (λ x. x.keep_running) k,
    )

-- The rest of the loop behind a round.
abbrev go_on : List Round → Option (Bool × Node) → Option (Bool × Node)
go_on rounds o = elim o [
  | none ↦ none
  | some (false, n') ↦ some (false, n')
  | some (true, n') ↦ run_event_loop rounds n'
]

abbrev continued : Option Node → Option (Bool × Node)
continued o = elim o [ none ↦ none | some n' ↦ some (true, n') ]

abbrev taken : Node → Option (Processed Handler Context Process) → Option Node
taken n o = elim o [
  | none ↦ none
  | some p ↦ some (record n { socket = some p.socket; registry = p.registry; process = p.process })
]

stopped :
    (rounds : List Round) (n : Node)
    → n.process.keep_running ≡ false
    → run_event_loop rounds n ≡ some (false, n)
unfolding run_event_loop
stopped [] n k = ap (λ b. some (b, n)) k
stopped (round ∷ rounds) n k = ap (λ b. go_on rounds (turn b round n)) k

-- With a valid registry, the flag set and the socket open: a round that takes a SHUTDOWN request,
-- valid and bound to the collector's handler, is the loop's last, whether or not the response is
-- delivered and whatever datagram is readable too. The datagram is handled, and at the next test of
-- the flag the loop ends.
pub shutdown_ends_loop :
    (rounds : List Round) (ready : Ready) (l : Link) (s : MgmtSocket) (r : Table) (w : Process)
    (io : Io) (req : Request) (ctx : Context)
    → IsValid r
    → w.keep_running ≡ true
    → is_negative s.socket_fd ≡ false
    → ready.request ≡ some io
    → io.received ≡ some req
    → request_validate (some req) ≡ true
    → view r req.cmd_type (target_region req) ≡ some (some (handler_shutdown collector), some ctx)
    → (n : Node) × (run_event_loop
          (polled ready ∷ rounds)
          (record { link = l; socket = some s; registry = r; process = w })
        ≡ some (false, n))
      × (n.link ≡ read_udp ready.datagram l)
      × (n.process.keep_running ≡ false)
unfolding run_event_loop
shutdown_ends_loop rounds ready l s r w io req ctx v on fd rdy rec ok b =
    let (p, q, k) = served io s r w req ctx v fd rec ok b in
    let n : Node = record {
      link = read_udp ready.datagram l;
      socket = some p.socket;
      registry = p.registry;
      process = p.process;
    } in
    let n0 : Node = record { link = l; socket = some s; registry = r; process = w } in
    let n1 : Node = record n0 { link = n.link } in
    let a : turn w.keep_running (polled ready) n0 ≡ continued (serve ready.request n1) =
      ap (λ b. turn b (polled ready) n0) on in
    let c : continued (serve ready.request n1) ≡ continued (some n) =
      ap (λ m. continued (serve m n1)) rdy ∙ ap (λ o. continued (taken n1 o)) q in
    (n, ap (go_on rounds) (a ∙ c) ∙ stopped rounds n k, refl, k)
