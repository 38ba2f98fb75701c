-- ===== src/Examples/Client.antt =====
-- The registration of a module's handlers, and commands of the client.
use study_c.Prelude.{
  ℕ, ◌+◌, ◌≤◌, ◌≡◌, refl, Bool, true, false, some, List, [], ◌∷◌, arith, ℤ, pos, ret_ok, Bytes,
  codes, c_str, bytes_eq, str_eq, strncpy, memcpy, replicate, pad, drop, take, ap, if◌then◌else◌,
}
use study_c.Protocol.{
  Timespec, Request, Response, request_validate, zero_response, zero_request, cmd_ping,
  cmd_get_status, cmd_shutdown, response_latency_us, time_us, target_region, request_init,
}
use study_c.Registry.{at_start, register, register_at, find, find_from, matches, update_at}
use study_c.Registry.Find.{find_entry}
use study_c.Ipc.{le32}
use study_c.Registry.Valid.{IsValid, at_start-IsValid}
use study_c.Registry.Views.{view, same_key}
use study_c.Registry.Dispatch.{dispatch}
use study_c.Registry.Dispatch.Serve.{Counted}
use study_c.Handlers.{
  Node, Handler, handler_ping, handler_get_status, handler_shutdown, Process, Table, invoke,
  mgmt_register,
}
use study_c.Handlers.Register.{mgmt_register-binds}
use study_c.Handlers.Serve.{IsReply, dispatch-IsReply}
use study_c.Ctl.{build, main, module_to_path, parse_command, parse_in}
use study_c.Ctl.Session.{request_of, path_of, deliver, session-IsReply}

abbrev noon : Timespec
noon = record { sec = 43200; nsec = pos 5000 }

abbrev running : Process
running = record {
  now = noon;
  uptime = pos 61;
  queue_open = true;
  keep_running = true;
  main_queue = [];
  shutdown_requested = false;
  null_read = false;
}

abbrev start : Table
start = at_start

empty : start.entry_count + 3 ≤ 64
unfolding at_start
empty = omega arith

mgmt_register-binds_example :
    (r' : Table) × (mgmt_register Node.viewer (pos 5) start ≡ (ret_ok, r'))
    × IsValid r'
    × ((cmd : ℕ) (name : Bytes)
        → view r' cmd name ≡ (
            if same_key cmd_shutdown (codes "viewer") cmd name
            then some (some (handler_shutdown Node.viewer), some (pos 5))
            else if same_key cmd_get_status (codes "viewer") cmd name
            then some (some (handler_get_status Node.viewer), some (pos 5))
            else if same_key cmd_ping (codes "viewer") cmd name
            then some (some (handler_ping Node.viewer), some (pos 5))
            else view start cmd name))
mgmt_register-binds_example = mgmt_register-binds Node.viewer (pos 5) start at_start-IsValid empty

abbrev status : Handler
status = handler_get_status Node.router

-- The router's table.
abbrev table : Table
table = (mgmt_register Node.router (pos 5) start).1

table-IsValid : IsValid table
table-IsValid =
    let (r', e, v, k) = mgmt_register-binds Node.router (pos 5) start at_start-IsValid empty in
    rw (ap (λ out. out.1) e) v

status-bound :
    view table cmd_get_status (target_region (request_of noon status))
    ≡ some (some status, some (pos 5))
unfolding view mgmt_register register register_at find find_from matches update_at at_start c_str
    bytes_eq strncpy pad drop replicate take find_entry
status-bound = refl

status-validates : request_validate (some (request_of noon status)) ≡ true
unfolding request_validate strncpy pad drop replicate c_str
status-validates = refl

dispatch-IsReply_example :
    (resp' : Response) × (r' : Table) × (dispatch invoke
        (some (request_of noon status))
        (some zero_response)
        table
        running
      ≡ some (ret_ok, some resp', r', running))
    × IsValid r'
    × IsReply status (request_of noon status) running resp'
    × (response_latency_us (some resp') ≡ time_us noon)
    × Counted (request_of noon status) (time_us noon) table r'
dispatch-IsReply_example =
    dispatch-IsReply status (pos 5) (request_of noon status) zero_response table running
      table-IsValid status-validates status-bound

-- A reading of decimal numbers that knows one of them.
abbrev reads : Bytes → ℤ × Bool
reads text = if str_eq text (codes "4096") then (pos 4096, true) else (pos 0, false)

abbrev arguments : List Bytes
arguments = codes "4096" ∷ []

-- What `mgmtctl viewer bufsize 4096` sends.
abbrev bufsize : Request
bufsize = record zero_request {
  cmd_type = 4;
  timestamp = noon;
  target_module = strncpy zero_request.target_module (codes "viewer") 63;
  payload = memcpy zero_request.payload (memcpy zero_request.payload (le32 4096) 4) 4;
  payload_len = 4;
}

built :
    build reads noon (codes "viewer" ∷ codes "bufsize" ∷ arguments)
    ≡ some (codes "/tmp/studyc_viewer.sock", bufsize)
unfolding build request_init module_to_path parse_command parse_in c_str bytes_eq
built = refl

session-IsReply_example :
    (t : Table) × (resp : Response) × (t' : Table) × (mgmt_register Node.router (pos 5) start
      ≡ (ret_ok, t))
    × (build reads noon (codes "router" ∷ codes "status" ∷ [])
        ≡ some (path_of Node.router, request_of noon status))
    × (dispatch invoke (some (request_of noon status)) (some zero_response) t running
        ≡ some (ret_ok, some resp, t', running))
    × IsReply status (request_of noon status) running resp
    × (main reads noon (deliver Node.router t running) (codes "router" ∷ codes "status" ∷ []) ≡ 0)
session-IsReply_example =
    session-IsReply reads noon status (pos 5) start running at_start-IsValid empty

-- A typing error, and a size that is no number, end the client with 1.
refuses_unknown_module :
    main reads noon (deliver Node.router table running) (codes "rooter" ∷ codes "ping" ∷ []) ≡ 1
unfolding main build module_to_path c_str bytes_eq
refuses_unknown_module = refl

refuses_bad_size :
    main reads noon
      (deliver Node.router table running)
      (codes "router" ∷ codes "bufsize" ∷ codes "x" ∷ [])
    ≡ 1
unfolding main build module_to_path parse_command parse_in c_str bytes_eq
refuses_bad_size = refl
