-- ===== src/Handlers/Serve.antt =====
-- What a dispatched command of a module answers.
use study_c.Prelude.{
  take_of_length_le, ℕ, ◌+◌, ◌≤◌, ◌≡◌, refl, ap, ◌∙◌, true, some, ret_ok, Bytes, arith, length,
  take, c_str, [], ◌∷◌, ◌++◌, codes, c_str-snprintf_str, length-take, replicate, length-append, ltb,
  if◌then◌else◌, ◌-◌, ◌%◌, ◌^◌,
}
use study_c.Protocol.{
  Request, Response, request_validate, response_latency_us, time_us, target_region, result_ok,
  epoch, response_init,
}
use study_c.Protocol.Init.{response_init-fills}
use study_c.Registry.Valid.{IsValid}
use study_c.Registry.Views.{view}
use study_c.Registry.Dispatch.{dispatch, prepare, settle}
use study_c.Registry.Dispatch.Serve.{Counted, dispatch-Served}
use study_c.Handlers.{
  Node, collector, router, viewer, Handler, handler_ping, handler_get_status, handler_shutdown,
  Context, Process, Table, invoke, reply_text, request_shutdown, module_text, status_text,
  status_line, status_size,
}

abbrev pub node_of : Handler → Node
node_of (handler_ping node) = node
node_of (handler_get_status node) = node
node_of (handler_shutdown node) = node

-- The text that a handler answers, and what it changes in its process.
abbrev pub answer : Handler → Process → Bytes
answer (handler_ping node) w = codes "pong"
answer (handler_get_status node) w = status_text w.uptime
answer (handler_shutdown node) w = codes "shutdown initiated"

abbrev pub after : Handler → Process → Process
after (handler_ping node) w = w
after (handler_get_status node) w = w
after (handler_shutdown node) w = request_shutdown node w

pub invoke-answer :
    (h : Handler) (ctx : Context) (req : Request) (resp : Response) (w : Process)
    → invoke h (some ctx) req resp w
      ≡ (ret_ok, reply_text (node_of h) (answer h w) w req resp, after h w)
unfolding invoke
invoke-answer (handler_ping node) ctx req resp w = refl
invoke-answer (handler_get_status node) ctx req resp w = refl
invoke-answer (handler_shutdown node) ctx req resp w = refl

length-answer : (h : Handler) (w : Process) → length (answer h w) ≤ 255
length-answer (handler_ping node) w = omega arith
length-answer (handler_get_status node) w =
    rw (c_str-snprintf_str (replicate status_size 0) (status_line w.uptime) 255)
      (omega (arith, length-take 255 (c_str (status_line w.uptime))))
length-answer (handler_shutdown node) w = omega arith

short_module : (node : Node) → take 63 (c_str (module_text node)) ≡ module_text node
unfolding take c_str
short_module collector = refl
short_module router = refl
short_module viewer = refl

-- A response filled by a handler of the module.
abbrev pub IsReply : Handler → Request → Process → Response → Type 0
IsReply h req w resp =
    (c_str resp.source_module ≡ module_text (node_of h))
    × (take (length (answer h w) + 1) resp.payload ≡ answer h w ++ (0 ∷ []))
    × (resp.request_id ≡ req.request_id)
    × (resp.result_code ≡ result_ok)
    × (resp.response_timestamp ≡ w.now)
    × (resp.request_timestamp ≡ epoch)

reply_text-IsReply :
    (h : Handler) (req : Request) (resp : Response) (w : Process)
    → IsReply h req w (reply_text (node_of h) (answer h w) w req resp)
reply_text-IsReply h req resp w =
    let msg = answer h w in
    let short = length-answer h w in
    let (r, e, size, name, bytes, id, code, at, from) =
      response_init-fills w.now resp req.request_id result_ok (module_text (node_of h))
        (msg ++ (0 ∷ [])) (length msg + 1) (omega arith)
        (omega (arith, length-append msg (0 ∷ []))) in
    let whole =
      take_of_length_le (length msg + 1) (msg ++ (0 ∷ []))
        (omega (arith, length-append msg (0 ∷ []))) in
    rw (reply_text, e)
      (
        name ∙ short_module (node_of h),
        ap (λ n. take n r.payload) (omega arith)
            ∙ bytes
            ∙ ap (λ n. take n (msg ++ (0 ∷ []))) (omega arith)
            ∙ whole,
        id,
        code,
        at,
        from,
      )

from_zero : (t : ℕ) → (if ltb 0 t then t - 0 else 0) ≡ t
from_zero t = ground arith

-- A valid request whose command and name are bound to one of a module's handlers with a context
-- that is not NULL, in a valid registry: handler_dispatch returns 0, the handler has changed its
-- process, and the response carries the request's id, MGMT_RESULT_OK, the module's name and the
-- handler's text with its NUL. But the handler has cleared the request's time from the response, so
-- the latency that is added to the statistics of the handler's slot, modulo 2^64, is the clock's
-- reading, in microseconds; the slot's count of calls grows by one, modulo 2^32.
pub dispatch-IsReply :
    (h : Handler) (ctx : Context) (req : Request) (resp : Response) (r : Table) (w : Process)
    → IsValid r
    → request_validate (some req) ≡ true
    → view r req.cmd_type (target_region req) ≡ some (some h, some ctx)
    → (resp' : Response) × (r' : Table) × (dispatch invoke (some req) (some resp) r w
        ≡ some (ret_ok, some resp', r', after h w))
      × IsValid r'
      × IsReply h req w resp'
      × (response_latency_us (some resp') ≡ time_us w.now)
      × Counted req (time_us w.now) r r'
unfolding response_latency_us response_init time_us
dispatch-IsReply h ctx req resp r w v ok b =
    let (r', e, v', td, tf, vw, cnt) = dispatch-Served invoke req resp r w v ok b in
    let (i, d, d', f, g, g', calls, latency) = cnt in
    let call = invoke-answer h ctx req (prepare req resp) w in
    let reply = reply_text-IsReply h req (prepare req resp) w in
    (
      settle ret_ok (reply_text (node_of h) (answer h w) w req (prepare req resp)),
      r',
      e ∙ ap (λ out. some (out.0, some (settle out.0 out.1), r', out.2)) call,
      v',
      reply,
      from_zero (time_us w.now),
      (
        i,
        d,
        d',
        f,
        g,
        g',
        calls,
        latency
            ∙ ap
                (λ out.
                  (d.total_latency_us + response_latency_us (some (settle out.0 out.1))) % 2 ^ 64)
                call
            ∙ ap (λ n. (d.total_latency_us + n) % 2 ^ 64) (from_zero (time_us w.now)),
      ),
    )
