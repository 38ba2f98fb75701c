-- ===== src/Examples/Registry.antt =====
-- A registry with two handlers, for event_handler.c and mgmt_socket.c.
use study_c.Prelude.{
  ℕ, ◌+◌, ◌≤◌, ◌≡◌, refl, inl, Bool, true, false, Option, none, some, List, [], ◌∷◌, arith, ℤ, pos,
  ret_err, Bytes, codes, c_str, bytes_eq, length, get_elem?, take, replicate, strncpy, pad, drop,
  ret_internal, if◌then◌else◌,
}
use study_c.Protocol.{
  Request, Response, request_validate, zero_request, zero_response, target_region, module_name_size,
  cmd_ping, cmd_get_status, result_module_not_found, result_invalid_cmd,
}
use study_c.Registry.{
  Registry, Entry, at_start, register, register_at, unregister, find, find_from, matches, update_at,
}
use study_c.Registry.Find.{live, find_entry}
use study_c.Registry.Valid.{IsValid, at_start-IsValid, register-IsValid}
use study_c.Registry.Views.{view, Registered, Unregistered, view-register, view-unregister}
use study_c.Registry.Dispatch.{begin, chosen, prepare, dispatch, call}
use study_c.Registry.Dispatch.Serve.{Served, dispatch-Served, dispatch_refuses}
use study_c.Registry.Dispatch.Stale.{call-unregister}
use study_c.Registry.Threads.{Shared, started, Reachable, start, next, registering, beginning}
use study_c.Registry.Threads.Safe.{Reachable-IsValid}
use study_c.Registry.Threads.Reach.{Reachable-call}
use study_c.Socket.{MgmtSocket, Io, process_one}
use study_c.Socket.Counts.{answered, process_one-answers}

abbrev name : Bytes
name = codes "router"

-- Two handlers, 7 and 8: the registry after they are registered.
abbrev one : Registry ℕ ℕ
one = (register (some name) cmd_ping (some 7) none at_start).1

abbrev two : Registry ℕ ℕ
two = (register (some name) cmd_get_status (some 8) (some 3) one).1

short : length (c_str name) ≤ 63
unfolding c_str
short = omega arith

one-IsValid : IsValid one
one-IsValid = register-IsValid name cmd_ping (some 7) none at_start short at_start-IsValid

two-IsValid : IsValid two
two-IsValid = register-IsValid name cmd_get_status (some 8) (some 3) one short one-IsValid

-- Handlers that answer with their own number, and count their calls in the process.
abbrev run_handler : ℕ → Option ℕ → Request → Response → ℕ → ℤ × Response × ℕ
run_handler h c req resp w = (pos 0, record resp { request_id = h }, w + 1)

abbrev ping : Request
ping = record zero_request {
  cmd_type = cmd_ping;
  target_module = strncpy (replicate module_name_size 0) name 63;
}

ping-validates : request_validate (some ping) ≡ true
unfolding request_validate strncpy pad c_str drop replicate
ping-validates = refl

view-register_example :
    Registered cmd_get_status name 8
      (some 3)
      one
      (register (some name) cmd_get_status (some 8) (some 3) one)
view-register_example = view-register cmd_get_status name 8 (some 3) one one-IsValid short

view-unregister_example : Unregistered cmd_ping name two (unregister (some name) cmd_ping two)
view-unregister_example = view-unregister cmd_ping name two two-IsValid

view-ping : view two cmd_ping (target_region ping) ≡ some (some 7, none)
unfolding view register register_at find find_from matches update_at at_start c_str bytes_eq strncpy
    pad drop replicate take find_entry
view-ping = refl

dispatch-Served_example :
    Served run_handler 7 none ping zero_response two 0
      (dispatch run_handler (some ping) (some zero_response) two 0)
dispatch-Served_example =
    dispatch-Served run_handler ping zero_response two 0 two-IsValid ping-validates view-ping

-- A command that nobody has registered.
abbrev unknown : Request
unknown = record ping { cmd_type = 9 }

view-unknown : view two 9 (target_region unknown) ≡ none
unfolding view register register_at find find_from matches update_at at_start c_str bytes_eq strncpy
    pad drop replicate take find_entry
view-unknown = refl

dispatch_refuses_example : dispatch run_handler (some unknown) (some zero_response) two 0 ≡ (
    if request_validate (some unknown)
    then some
        (ret_err, some (record zero_response { result_code = result_module_not_found }), two, 0)
    else some
        (ret_internal, some (record zero_response { result_code = result_invalid_cmd }), two, 0))
dispatch_refuses_example =
    dispatch_refuses run_handler unknown zero_response two 0 (inl view-unknown)

find-ping : find cmd_ping name two ≡ some 0
unfolding register register_at find find_from matches update_at at_start c_str bytes_eq strncpy pad
    drop replicate take
find-ping = refl

two-count : two.entry_count ≡ 2
unfolding register register_at find find_from matches update_at at_start c_str bytes_eq strncpy pad
    drop replicate take
two-count = refl

call-unregister_example :
    (e : Entry ℕ ℕ) × (get_elem? (live two) 1 ≡ some e)
    × (matches cmd_ping name e ≡ false)
    × (call run_handler 0 ping zero_response (unregister (some name) cmd_ping two).1 0
        ≡ call run_handler 1 ping zero_response two 0)
call-unregister_example =
    call-unregister run_handler cmd_ping name ping zero_response two 0 0 two-IsValid find-ping
      (omega (arith, two-count))

abbrev opened : MgmtSocket
opened = record {
  socket_fd = pos 3;
  socket_path = [];
  total_requests = 5;
  total_responses = 4;
  failed_requests = 0;
}

abbrev ping_arrives : Io
ping_arrives = record { timeout_set = true; received = some ping; delivered = true }

process_one-answers_example :
    (result : ℤ) × (resp : Response) × (r' : Registry ℕ ℕ) × (w' : ℕ) × (dispatch run_handler
        (some ping)
        (some zero_response)
        two
        0
      ≡ some (result, some resp, r', w'))
    × IsValid r'
    × (process_one run_handler (pos 1000) ping_arrives opened two 0
        ≡ some (answered run_handler ping_arrives opened result resp r' w'))
process_one-answers_example =
    process_one-answers run_handler (pos 1000) ping_arrives opened two 0 ping two-IsValid refl refl
      refl

abbrev rounds : List (Bool × Io)
rounds = (true, ping_arrives) ∷ (true, record ping_arrives { received = none }) ∷ []

-- One thread registers a handler, another begins to dispatch a ping.
abbrev registered : Shared ℕ ℕ
registered = record (started ℕ ℕ) { registry = one }

abbrev dispatching : Shared ℕ ℕ
dispatching = record registered {
  pending = record { slot = 0; request = ping; response = prepare ping zero_response } ∷ [];
}

begin-ping : begin (some ping) (some zero_response) one ≡ chosen 0 ping (prepare ping zero_response)
unfolding begin request_validate register register_at find find_from matches update_at at_start
    c_str bytes_eq strncpy pad drop replicate take
begin-ping = refl

dispatching-Reachable : Reachable ℕ ℕ dispatching
dispatching-Reachable =
    next registered dispatching
      (next (started ℕ ℕ) registered start
        (registering (started ℕ ℕ) name cmd_ping (some 7) none short))
      (beginning registered ping ping zero_response (prepare ping zero_response) 0 begin-ping)

Reachable-call_example :
    (h : ℕ) × (e : Entry ℕ ℕ) × (get_elem? one.entries 0 ≡ some e)
    × (call run_handler 0 ping (prepare ping zero_response) one 4
        ≡ some (run_handler h e.context ping (prepare ping zero_response) 4))
Reachable-call_example =
    Reachable-call run_handler dispatching [] []
      (record { slot = 0; request = ping; response = prepare ping zero_response }) 4
      dispatching-Reachable refl

Reachable-IsValid_example : IsValid one
Reachable-IsValid_example = Reachable-IsValid dispatching dispatching-Reachable
