-- ===== src/Ctl/Session.antt =====
-- A command from the client to a module and back: MgmtCtl/src/main.c, the registration of the
-- module's handlers, and handler_dispatch, with no message lost between them.
use study_c.Prelude.{
  ℕ, ◌+◌, ◌≤◌, ◌≡◌, refl, ◌∙◌, Bool, true, Option, none, some, List, [], ◌∷◌, ℤ, ret_ok, ret_err,
  Bytes, codes, c_str, str_eq, bytes_eq, if◌then◌else◌, replicate, strncpy, pad, drop,
}
use study_c.Protocol.{
  Timespec, Request, Response, request_init, zero_request, zero_response, target_region, cmd_ping,
  cmd_get_status, cmd_shutdown, result_ok,
}
use study_c.Registry.{max_event_handlers}
use study_c.Registry.Valid.{IsValid}
use study_c.Registry.Views.{view, same_key}
use study_c.Registry.Dispatch.{dispatch}
use study_c.Handlers.{
  Node, Handler, handler_ping, handler_get_status, handler_shutdown, Context, Process, Table,
  invoke, mgmt_register, module_text,
}
use study_c.Handlers.Register.{mgmt_register-binds}
use study_c.Handlers.Serve.{IsReply, after, node_of, dispatch-IsReply}
use study_c.Ctl.Build.{build-IsAccepted}
use study_c.Ctl.{build, main, module_to_path, parse_command, parse_in}

-- What the user types for a handler, and the command it stands for.
abbrev pub command_text : Handler → Bytes
command_text (handler_ping node) = codes "ping"
command_text (handler_get_status node) = codes "status"
command_text (handler_shutdown node) = codes "shutdown"

abbrev pub command_code : Handler → ℕ
command_code (handler_ping node) = cmd_ping
command_code (handler_get_status node) = cmd_get_status
command_code (handler_shutdown node) = cmd_shutdown

abbrev pub request_of : Timespec → Handler → Request
request_of now h = record zero_request {
  cmd_type = command_code h;
  timestamp = now;
  target_module = strncpy zero_request.target_module (module_text (node_of h)) 63;
}

abbrev pub path_of : Node → Bytes
path_of Node.collector = codes "/tmp/studyc_collector.sock"
path_of Node.router = codes "/tmp/studyc_router.sock"
path_of Node.viewer = codes "/tmp/studyc_viewer.sock"

path_of_node : (node : Node) → module_to_path (module_text node) ≡ some (path_of node)
unfolding module_to_path c_str bytes_eq
path_of_node Node.collector = refl
path_of_node Node.router = refl
path_of_node Node.viewer = refl

code_of_text : (h : Handler) → parse_command (command_text h) ≡ some (command_code h)
unfolding parse_command parse_in c_str bytes_eq
code_of_text (handler_ping node) = refl
code_of_text (handler_get_status node) = refl
code_of_text (handler_shutdown node) = refl

target_of :
    (now : Timespec) (h : Handler) (node : Node)
    → node_of h ≡ node
    → str_eq (module_text (node_of h)) (target_region (request_of now h)) ≡ true
unfolding c_str strncpy pad drop replicate bytes_eq
target_of now h Node.collector e = rw e refl
target_of now h Node.router e = rw e refl
target_of now h Node.viewer e = rw e refl

view-bound_handler :
    (now : Timespec) (h : Handler) (ctx : Context) (r r' : Table)
    → ((cmd : ℕ) (name : Bytes)
        → view r' cmd name ≡ (
            if same_key cmd_shutdown (module_text (node_of h)) cmd name
            then some (some (handler_shutdown (node_of h)), some ctx)
            else if same_key cmd_get_status (module_text (node_of h)) cmd name
            then some (some (handler_get_status (node_of h)), some ctx)
            else if same_key cmd_ping (module_text (node_of h)) cmd name
            then some (some (handler_ping (node_of h)), some ctx)
            else view r cmd name))
    → view r' (command_code h) (target_region (request_of now h)) ≡ some (some h, some ctx)
unfolding same_key
view-bound_handler now (handler_ping node) ctx r r' k =
    k _ _ ∙ rw (target_of now (handler_ping node) node refl) refl
view-bound_handler now (handler_get_status node) ctx r r' k =
    k _ _ ∙ rw (target_of now (handler_get_status node) node refl) refl
view-bound_handler now (handler_shutdown node) ctx r r' k =
    k _ _ ∙ rw (target_of now (handler_shutdown node) node refl) refl

abbrev answered : Option (ℤ × Option Response × Table × Process) → ℤ × Response
answered none = (ret_err, zero_response)
answered (some (result, none, table, w)) = (ret_err, zero_response)
answered (some (result, some out, table, w)) = (ret_ok, out)

-- A request that is sent while only the node's module runs, and its response back at the client:
-- the module listens on the node's path, and sendto fails on any other.
abbrev pub deliver : Node → Table → Process → Bytes → Request → ℤ × Response
deliver node table w path req =
    if str_eq path (path_of node)
    then answered (dispatch invoke (some req) (some zero_response) table w)
    else (ret_err, zero_response)

own_path : (node : Node) → str_eq (path_of node) (path_of node) ≡ true
unfolding c_str bytes_eq
own_path Node.collector = refl
own_path Node.router = refl
own_path Node.viewer = refl

deliver-some :
    (node : Node) (table table' : Table) (w w' : Process) (req : Request) (resp : Response)
    (result : ℤ)
    → dispatch invoke (some req) (some zero_response) table w ≡ some (result, some resp, table', w')
    → deliver node table w (path_of node) req ≡ (ret_ok, resp)
deliver-some node table table' w w' req resp result d = rw (own_path node, d) refl

module _ (strtol : Bytes → ℤ × Bool) where
  build-request_of :
      (now : Timespec) (h : Handler)
      → build strtol now (module_text (node_of h) ∷ command_text h ∷ [])
        ≡ some (path_of (node_of h), request_of now h)
  unfolding build request_init
  build-request_of now (handler_ping node) =
      rw (build, path_of_node node, code_of_text (handler_ping node)) refl
  build-request_of now (handler_get_status node) =
      rw (build, path_of_node node, code_of_text (handler_get_status node)) refl
  build-request_of now (handler_shutdown node) =
      rw (build, path_of_node node, code_of_text (handler_shutdown node)) refl

  main_exits :
      (now : Timespec) (send : Bytes → Request → ℤ × Response) (args : List Bytes) (path : Bytes)
      (req : Request) (resp : Response)
      → build strtol now args ≡ some (path, req)
      → send path req ≡ (ret_ok, resp)
      → resp.result_code ≡ result_ok
      → main strtol now send args ≡ 0
  unfolding main
  main_exits now send args path req resp b s c = rw (main, b, s, c) refl

  -- After a module has registered its commands in a valid table with room for three entries,
  -- `mgmtctl` with the module's name and ping, status or shutdown makes the request with that
  -- command's code and that module's name, for that module's socket. A dispatch of it runs the
  -- module's handler of that command and gives that handler's response; and where only this module
  -- runs and the client's calls do not fail, the client exits with 0.
  pub session-IsReply :
      (now : Timespec) (h : Handler) (ctx : Context) (r : Table) (w : Process)
      → IsValid r
      → r.entry_count + 3 ≤ max_event_handlers
      → (table : Table) × (resp : Response) × (table' : Table) × (mgmt_register (node_of h) ctx r
          ≡ (ret_ok, table))
        × (build strtol now (module_text (node_of h) ∷ command_text h ∷ [])
            ≡ some (path_of (node_of h), request_of now h))
        × (dispatch invoke (some (request_of now h)) (some zero_response) table w
            ≡ some (ret_ok, some resp, table', after h w))
        × IsReply h (request_of now h) w resp
        × (main strtol now
              (deliver (node_of h) table w)
              (module_text (node_of h) ∷ command_text h ∷ [])
            ≡ 0)
  session-IsReply now h ctx r w v room =
      let (table, reg, valid, k) = mgmt_register-binds (node_of h) ctx r v room in
      let built = build-request_of now h in
      let ok =
        (build-IsAccepted strtol now (module_text (node_of h)) (command_text h)
          (path_of (node_of h)) [] (request_of now h) built).0 in
      let (resp, table', d, valid', reply, latency, counted) =
        dispatch-IsReply h ctx (request_of now h) zero_response table w valid ok
          (view-bound_handler now h ctx r table k) in
      (
        table,
        resp,
        table',
        reg,
        built,
        d,
        reply,
        main_exits now (deliver (node_of h) table w) (module_text (node_of h) ∷ command_text h ∷ [])
            (path_of (node_of h)) (request_of now h) resp built
            (deliver-some (node_of h) table table' w (after h w) (request_of now h) resp ret_ok d)
            (reply.3),
      )
