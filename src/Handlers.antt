-- ===== src/Handlers.antt =====
-- The management commands that the three processes answer: Collector/src/mgmt_handlers.c,
-- Router/src/mgmt_handlers.c and Viewer/src/mgmt_handlers.c. The files differ in the module's name
-- and in what SHUTDOWN does, so one model serves them, with the node as an argument.
pub mod Register
pub mod Serve
use study_c.Prelude.{
  decimal, ℕ, zero, suc, ◌+◌, ◌-◌, ◌/◌, ◌%◌, Bool, true, false, Option, none, some, List, [], ◌∷◌,
  ◌++◌, ltb, ◌==◌, if◌then◌else◌, length, ℤ, pos, negsuc, ret_ok, ret_err, is_negative, Bytes,
  codes, snprintf_str, c_str, replicate,
}
use study_c.Protocol.{
  Timespec, Request, Response, response_init, result_ok, cmd_ping, cmd_get_status, cmd_shutdown,
}
use study_c.Registry.{Registry, register}
use study_c.Ipc.{InternalMsg, send_signal_event}

pub data Node : Type 0 where
  collector router viewer : Node

abbrev pub module_text : Node → Bytes
module_text collector = codes "collector"
module_text router = codes "router"
module_text viewer = codes "viewer"

-- The functions that a table entry can point to.
pub data Handler : Type 0 where
  handler_ping handler_get_status handler_shutdown : Node → Handler

-- `CollectorMgmtCtx`, `RouterMgmtCtx` and `ViewerMgmtCtx`, as far as they are values: the start
-- time in seconds. What their pointers reach is a part of the process.
abbrev pub Context : Type 0
Context = ℤ

-- What the handlers read and write: the clocks of the call, whether msgsnd takes a message, and the
-- collector's flag, the router's main queue, and the viewer's flag and shutdown request.
pub record Process : Type 0 where
  pub now : Timespec
  pub uptime : ℤ  -- time(NULL) - start_time
  pub queue_open : Bool
  pub keep_running : Bool
  pub main_queue : List InternalMsg
  pub shutdown_requested : Bool
  pub null_read : Bool  -- a handler has read through a NULL context, which is undefined behaviour

abbrev pub status_size : ℕ
status_size = 256

abbrev pub status_line : ℤ → Bytes
status_line uptime = codes "{\"status\":\"running\",\"uptime_s\":" ++ decimal uptime ++ codes "}"

abbrev pub status_text : ℤ → Bytes
status_text uptime = c_str (snprintf_str (replicate status_size 0) (status_line uptime) status_size)

-- `mgmt_response_init(resp, req->request_id, MGMT_RESULT_OK, module, msg, strlen(msg) + 1)`; the
-- response is not null here.
abbrev pub reply_text : Node → Bytes → Process → Request → Response → Response
reply_text node msg w req resp =
    elim (response_init w.now (some resp) req.request_id result_ok (some (module_text node))
      (some (msg ++ (0 ∷ []))) (length msg + 1)) [ none ↦ resp | some out ↦ out ]

abbrev pub sigterm : ℕ
sigterm = 15

-- What SHUTDOWN changes, besides the response.
abbrev pub request_shutdown : Node → Process → Process
request_shutdown collector w = record w { keep_running = false }
request_shutdown router w = record w {
  main_queue = (send_signal_event w.queue_open w.main_queue sigterm).1;
}
request_shutdown viewer w = record w { keep_running = false; shutdown_requested = true }

-- A call of a handler: what it returns, the response it leaves and the process.
unfoldable pub invoke :
    Handler → Option Context → Request → Response → Process → ℤ × Response × Process
invoke (handler_ping node) ctx req resp w = (ret_ok, reply_text node (codes "pong") w req resp, w)
invoke (handler_get_status node) none req resp w =
    (ret_ok, reply_text node (status_text w.uptime) w req resp, record w { null_read = true })
invoke (handler_get_status node) (some ctx) req resp w =
    (ret_ok, reply_text node (status_text w.uptime) w req resp, w)
invoke (handler_shutdown node) none req resp w =
    (ret_ok, reply_text node (codes "shutdown initiated") w req resp, record w { null_read = true })
invoke (handler_shutdown node) (some ctx) req resp w =
    (ret_ok, reply_text node (codes "shutdown initiated") w req resp, request_shutdown node w)

abbrev pub Table : Type 0
Table = Registry Handler Context

-- `collector_mgmt_register`, `router_mgmt_register` and `viewer_mgmt_register`
unfoldable pub mgmt_register : Node → Context → Table → ℤ × Table
mgmt_register node ctx r =
    let (a, r1) =
      register (some (module_text node)) cmd_ping (some (handler_ping node)) (some ctx) r in
    if is_negative a
    then (ret_err, r1)
    else let (b, r2) =
        register (some (module_text node)) cmd_get_status (some (handler_get_status node))
          (some ctx) r1 in
      if is_negative b
      then (ret_err, r2)
      else let (c, r3) =
          register (some (module_text node)) cmd_shutdown (some (handler_shutdown node)) (some ctx)
            r2 in
        if is_negative c then (ret_err, r3) else (ret_ok, r3)
