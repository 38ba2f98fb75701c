-- ===== src/Registry/Dispatch.antt =====
-- handler_dispatch of Mgmt/src/event_handler.c. Its first locked region is `begin`, the call of the
-- handler with no lock held is `call`, and its second locked region is `finish`: they are the
-- steps between which other threads run. `dispatch` is their sequence with nothing between.
-- `matching_entry` is a pointer into the array, so it is the slot's index.
pub mod Serve
pub mod Stale
use study_c.Prelude.{
  ℕ, ◌+◌, ◌-◌, ◌%◌, ◌^◌, Option, none, some, get_elem?, strncpy, ℤ, ret_err, ret_internal, is_zero,
  if◌then◌else◌, ◌==◌,
}
use study_c.Protocol.{
  Request, Response, request_validate, response_latency_us, module_name_size, result_ok,
  result_invalid_cmd, result_module_not_found, result_handler_failed, target_region,
}
use study_c.Registry.{Entry, Registry, find, update_at}

-- How the first region ends: by a return with the response as it then is, or with the slot found
-- and the response prepared.
pub data Begun : Type 0 where
  returned : ℤ → Option Response → Begun
  chosen : ℕ → Request → Response → Begun

-- The lines that prepare the response.
abbrev pub prepare : Request → Response → Response
prepare req resp = record resp {
  request_id = req.request_id;
  request_timestamp = req.timestamp;
  source_module = strncpy resp.source_module (target_region req) (module_name_size - 1);
}

-- The search loop, and what follows it.
abbrev pub begin_at : Option ℕ → Request → Response → Begun
begin_at none req resp =
    returned ret_err (some (record resp { result_code = result_module_not_found }))
begin_at (some i) req resp = chosen i req (prepare req resp)

-- The result code after the handler.
abbrev pub settle : ℤ → Response → Response
settle result resp =
    if is_zero result
    then if resp.result_code == 0 then record resp { result_code = result_ok } else resp
    else record resp { result_code = result_handler_failed }

module _ {H C : Type 0} where
  unfoldable pub begin : Option Request → Option Response → Registry H C → Begun
  begin none resp r = returned ret_internal resp
  begin (some req) none r = returned ret_internal none
  begin (some req) (some resp) r =
      if request_validate (some req)
      then begin_at (find req.cmd_type (target_region req) r) req resp
      else returned ret_internal (some (record resp { result_code = result_invalid_cmd }))

  abbrev pub count_call : ℕ → Entry H C → Entry H C
  count_call latency e = record e {
    invocation_count = (e.invocation_count + 1) % 2 ^ 32;
    total_latency_us = (e.total_latency_us + latency) % 2 ^ 64;
  }

  unfoldable pub finish : ℕ → ℤ → Response → Registry H C → Response × Registry H C
  finish i result resp r =
      let latency = response_latency_us (some (settle result resp)) in
      (
        settle result resp,
        record r {
          entries = update_at r.entries i (count_call latency);
          total_dispatches = (r.total_dispatches + 1) % 2 ^ 32;
          total_failures =
              if is_zero result then r.total_failures else (r.total_failures + 1) % 2 ^ 32;
        },
      )

-- The handlers are code outside this file: `invoke h ctx req resp w` is the call of one, with the
-- rest of the process as a state of type `W`.
module _ {H C W : Type 0} (invoke : H → Option C → Request → Response → W → ℤ × Response × W) where
  -- `matching_entry->handler(req, resp, matching_entry->context)`; `none` is a call through NULL
  -- or a pointer past the array.
  unfoldable pub call : ℕ → Request → Response → Registry H C → W → Option (ℤ × Response × W)
  call i req resp r w = elim (get_elem? r.entries i) [
    | none ↦ none
    | some e ↦ elim e.handler [ none ↦ none | some h ↦ some (invoke h e.context req resp w) ]
  ]

  abbrev pub call_and_finish :
      Begun → Registry H C → W → Option (ℤ × Option Response × Registry H C × W)
  call_and_finish (returned result resp) r w = some (result, resp, r, w)
  call_and_finish (chosen i req resp) r w = elim (call i req resp r w) [
    | none ↦ none
    | some out ↦ let (resp', r') = finish i out.0 out.1 r in some (out.0, some resp', r', out.2)
  ]

  -- `none` is undefined behaviour; else the return value, `*resp`, the registry and the process.
  unfoldable pub dispatch :
      Option Request
      → Option Response
      → Registry H C
      → W
      → Option (ℤ × Option Response × Registry H C × W)
  dispatch req resp r w = call_and_finish (begin req resp r) r w
