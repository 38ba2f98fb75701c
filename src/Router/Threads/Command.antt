-- ===== src/Router/Threads/Command.antt =====
-- How a SHUTDOWN command from the client ends the router.
use study_c.Prelude.{
  ◌+◌, ◌*◌, ◌≤◌, ◌≡◌, refl, sym, ap, ◌∙◌, true, false, Option, some, List, [], ◌∷◌, ◌++◌, pos,
  is_negative, arith, length, length-append, ℤ,
}
use study_c.Protocol.{Request, Response, request_validate, target_region, zero_response}
use study_c.Registry.Valid.{IsValid}
use study_c.Registry.Views.{view}
use study_c.Ipc.{InternalMsg, EventType, build_internal_msg, send_signal_event, send_to_main}
use study_c.Handlers.{
  Table, Process, Handler, Context, handler_shutdown, router, invoke, request_shutdown,
}
use study_c.Handlers.Serve.{dispatch-IsReply}
use study_c.Socket.{MgmtSocket, Io, Processed, process_one}
use study_c.Socket.Counts.{answered, process_one-answers}
use study_c.Collector.{Link}
use study_c.Router.Relay.{sigterm}
use study_c.Router.Relay.Stop.{AllNotify}
use study_c.Router.MainLoop.Shutdown.{ends_program}
use study_c.Router.Threads.{
  System, MainAt, finished, Step, shutdown_command, run, step, at_start, on_shutdown_command,
  put_main_queue,
}
use study_c.Router.Threads.Queues.{has_final}
use study_c.Router.Threads.Sound.{AllTold, run-IsSound, at_start-IsSound, step-IsSound}
use study_c.Router.Threads.Measure.{is_stopping, stopping_at, left-le}
use study_c.Router.Threads.Rounds.{Round, AllRegular, steps, rounds_end}

abbrev pub terminate : InternalMsg
terminate = build_internal_msg EventType.ev_signal Option.none sigterm

terminate-ends : ends_program terminate.event terminate ≡ true
unfolding build_internal_msg
terminate-ends = refl

has_final-terminate : (q : List InternalMsg) → has_final (q ++ (terminate ∷ [])) ≡ true
has_final-terminate [] = rw terminate-ends refl
has_final-terminate (m ∷ q) = ground (arith, has_final-terminate q)

-- The command's step, while the management's thread runs.
commanded :
    (s : System)
    → s.mgmt_over ≡ false
    → step (shutdown_command true) s ≡ put_main_queue (s.worker.main_queue ++ (terminate ∷ [])) s
unfolding step on_shutdown_command send_signal_event send_to_main
commanded s o = rw o refl

stopping-terminate :
    (p : MainAt) (s : System)
    → stopping_at p (put_main_queue (s.worker.main_queue ++ (terminate ∷ [])) s) ≡ true
stopping-terminate p s = ground (arith, has_final-terminate s.worker.main_queue)

commanded-stops :
    (s : System) → s.mgmt_over ≡ false → is_stopping (step (shutdown_command true) s) ≡ true
commanded-stops s o = ap is_stopping (commanded s o) ∙ stopping-terminate s.main_at s

-- What a dispatch leaves.
abbrev Out : Type 0
Out = ℤ × Option Response × Table × Process

same_process : {o o' : Out} → Option.some o ≡ Option.some o' → o.3 ≡ o'.3
same_process h = cc

-- Serving the request does to the main queue what the step does.
served :
    (io : Io) (k : MgmtSocket) (r : Table) (w : Process) (req : Request) (ctx : Context)
    → IsValid r
    → is_negative k.socket_fd ≡ false
    → io.timeout_set ≡ true
    → io.received ≡ some req
    → request_validate (some req) ≡ true
    → view r req.cmd_type (target_region req) ≡ some (some (handler_shutdown router), some ctx)
    → (p : Processed Handler Context Process) × (process_one invoke (pos 1000) io k r w ≡ some p)
      × (p.process ≡ request_shutdown router w)
served io k r w req ctx v fd ts rec ok b =
    let (result, resp, r', w', e, v', q) =
      process_one-answers invoke (pos 1000) io k r w req v fd ts rec in
    let (resp2, r2, e2, v2, reply, l, cnt) =
      dispatch-IsReply (handler_shutdown router) ctx req zero_response r w v ok b in
    (answered invoke io k result resp r' w', q, same_process (sym e ∙ e2))

length-commanded :
    (s : System)
    → s.mgmt_over ≡ false
    → length (step (shutdown_command true) s).worker.main_queue ≡ length s.worker.main_queue + 1
length-commanded s o = rw (commanded s o) (length-append s.worker.main_queue (terminate ∷ []))

queue-sent :
    (s : System)
    → s.mgmt_over ≡ false
    → (send_signal_event true s.worker.main_queue sigterm).1
      ≡ (step (shutdown_command true) s).worker.main_queue
unfolding send_signal_event send_to_main
queue-sent s o = rw (commanded s o) refl

queue-commanded :
    (s : System)
    → s.mgmt_over ≡ false
    → (step (shutdown_command true) s).worker.link.queue ≡ s.worker.link.queue
queue-commanded s o = rw (commanded s o) refl

-- From the command to the end: take any state of the router that any order of its threads' steps
-- leads to, from a shared queue of notifications and with no quit message refused or taken by
-- another process. Let its management's thread, which has not ended, serve a SHUTDOWN request that
-- is valid and bound to the router's handler in a valid registry, and let msgsnd succeed. Then the
-- call returns, whether or not the response is delivered, and leaves the main queue that the
-- command's step leaves; and rounds in which each thread makes one step, main's msgrcv is not
-- interrupted, the worker's does not fail and the quit message is taken, bring main behind its
-- joins: at most 32 rounds, one for each notification that waits and two for each message that was
-- in the main queue.
pub command_ends_router :
    (link : Link) (xs : List Step) (rs : List Round) (io : Io) (k : MgmtSocket) (r : Table)
    (w : Process) (req : Request) (ctx : Context)
    → AllNotify link.queue
    → AllTold xs
    → AllRegular rs
    → (run xs (at_start link)).mgmt_over ≡ false
    → w.main_queue ≡ (run xs (at_start link)).worker.main_queue
    → w.queue_open ≡ true
    → IsValid r
    → is_negative k.socket_fd ≡ false
    → io.timeout_set ≡ true
    → io.received ≡ some req
    → request_validate (some req) ≡ true
    → view r req.cmd_type (target_region req) ≡ some (some (handler_shutdown router), some ctx)
    → 32
        + 2 * length (run xs (at_start link)).worker.main_queue
        + length (run xs (at_start link)).worker.link.queue
      ≤ length rs
    → (p : Processed Handler Context Process) × (process_one invoke (pos 1000) io k r w ≡ some p)
      × (p.process.main_queue
          ≡ (step (shutdown_command true) (run xs (at_start link))).worker.main_queue)
      × ((run (steps rs) (step (shutdown_command true) (run xs (at_start link)))).main_at
          ≡ finished)
command_ends_router link xs rs io k r w req ctx n t g o mq takes v fd ts rec ok b l =
    let s = run xs (at_start link) in
    let s' = step (shutdown_command true) s in
    let i = run-IsSound xs (at_start link) t (at_start-IsSound link n) in
    let i' = step-IsSound (shutdown_command true) s tt i in
    let (p, q, e) = served io k r w req ctx v fd ts rec ok b in
    (
      p,
      q,
      ap (λ x. x.main_queue) e
          ∙ ap (λ b. (send_signal_event b w.main_queue sigterm).1) takes
          ∙ ap (λ q. (send_signal_event true q sigterm).1) mq
          ∙ queue-sent s o,
      rounds_end rs s' g (commanded-stops s o) i'
          (omega (arith, left-le s' i', length-commanded s o, ap length (queue-commanded s o))),
    )
