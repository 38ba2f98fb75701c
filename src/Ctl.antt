-- ===== src/Ctl.antt =====
-- The command-line client: MgmtCtl/src/main.c and MgmtCtl/src/mgmt_send.c, with the socket paths of
-- Mgmt/include/mgmt_paths.h. The arguments are `argv[1]`, `argv[2]`, ...; what is printed is left
-- out.
pub mod Build
pub mod Session
use study_c.Prelude.{
  ℕ, ◌^◌, Bool, true, false, Option, none, some, List, [], ◌∷◌, ◌&&◌, ltb, ◌==◌, if◌then◌else◌, ℤ,
  pos, negsuc, ret_ok, ret_err, is_negative, Bytes, codes, str_eq, memcpy, length, replicate,
}
use study_c.Protocol.{
  Timespec, Request, Response, request_init, zero_request, payload_request_size, result_ok,
  cmd_ping, cmd_get_status, cmd_get_metrics, cmd_reset_metrics, cmd_set_log_level,
  cmd_set_buffer_size, cmd_enable_profiling, cmd_enable_tracing, cmd_get_config, cmd_shutdown,
}
use study_c.Ipc.{le32}

unfoldable pub module_to_path : Bytes → Option Bytes
module_to_path name =
    if str_eq name (codes "collector")
    then some (codes "/tmp/studyc_collector.sock")
    else if str_eq name (codes "router")
    then some (codes "/tmp/studyc_router.sock")
    else if str_eq name (codes "viewer")
    then some (codes "/tmp/studyc_viewer.sock")
    else none

-- The search of `parse_command` and `parse_loglevel`: the value of the first name that is equal.
unfoldable pub parse_in : List (Bytes × ℕ) → Bytes → Option ℕ
parse_in [] s = none
parse_in ((name, value) ∷ table) s =
    let rest = parse_in table s in if str_eq s name then some value else rest

abbrev pub command_table : List (Bytes × ℕ)
command_table =
    (codes "ping", cmd_ping)
    ∷ (codes "status", cmd_get_status)
    ∷ (codes "metrics", cmd_get_metrics)
    ∷ (codes "reset", cmd_reset_metrics)
    ∷ (codes "loglevel", cmd_set_log_level)
    ∷ (codes "bufsize", cmd_set_buffer_size)
    ∷ (codes "profiling", cmd_enable_profiling)
    ∷ (codes "tracing", cmd_enable_tracing)
    ∷ (codes "config", cmd_get_config)
    ∷ (codes "shutdown", cmd_shutdown)
    ∷ []

abbrev pub level_table : List (Bytes × ℕ)
level_table =
    (codes "trace", 0)
    ∷ (codes "debug", 1)
    ∷ (codes "info", 2)
    ∷ (codes "warn", 3)
    ∷ (codes "error", 4)
    ∷ (codes "fatal", 5)
    ∷ []

unfoldable pub parse_command : Bytes → Option ℕ
parse_command s = parse_in command_table s

unfoldable pub parse_loglevel : Bytes → Option ℕ
parse_loglevel s = parse_in level_table s

-- `size_l > 0 && size_l <= INT_MAX`
abbrev pub size_of_long : ℤ → Option ℕ
size_of_long (pos n) = if ltb 0 n && ltb n (2 ^ 31) then some n else none
size_of_long (negsuc n) = none

-- `payload_len ? payload : NULL` with its length, into `mgmt_request_init`.
abbrev pub make_request : Timespec → ℕ → Bytes → Bytes → Option Request
make_request now cmd name [] = request_init now (some zero_request) cmd (some name) none 0
make_request now cmd name (b ∷ bs) =
    request_init now (some zero_request) cmd (some name)
      (some (memcpy (replicate payload_request_size 0) (b ∷ bs) (length (b ∷ bs))))
      (length (b ∷ bs))

-- `strtol` in base 10 is a parameter: the number it reads, and whether `*endptr` is the NUL.
module _ (strtol : Bytes → ℤ × Bool) where
  abbrev pub parse_size : Bytes → Option ℕ
  parse_size arg = if (strtol arg).1 then size_of_long ((strtol arg).0) else none

  -- The payload of a command: `none` ends the program with 1, `some []` stands for no payload.
  abbrev pub command_payload : ℕ → List Bytes → Option Bytes
  command_payload cmd args =
      if cmd == cmd_set_log_level
      then elim args [
        | [] ↦ none
        | arg ∷ _ ↦ elim (parse_loglevel arg) [ none ↦ none | some level ↦ some (level ∷ []) ]
      ]
      else if cmd == cmd_set_buffer_size
      then elim args [
        | [] ↦ none
        | arg ∷ _ ↦ elim (parse_size arg) [ none ↦ none | some size ↦ some (le32 size) ]
      ]
      else some []

  -- `main` up to the send: the socket's path and the request, or `none` for `return 1`.
  unfoldable pub build : Timespec → List Bytes → Option (Bytes × Request)
  build now [] = none
  build now (name ∷ []) = none
  build now (name ∷ command ∷ args) = elim (module_to_path name) [
    | none ↦ none
    | some path ↦ elim (parse_command command) [
      | none ↦ none
      | some cmd ↦ elim (command_payload cmd args) [
        | none ↦ none
        | some payload ↦ elim (make_request now cmd name payload) [
          | none ↦ none
          | some req ↦ some (path, req)
        ]
      ]
    ]
  ]

  -- `main` with what `mgmt_send_command` gives for a path and a request: the exit code.
  unfoldable pub main : Timespec → (Bytes → Request → ℤ × Response) → List Bytes → ℕ
  main now send args = elim (build now args) [
    | none ↦ 1
    | some (path, req) ↦
        let (ret, resp) = send path req in
        if is_negative ret then 1 else if resp.result_code == result_ok then 0 else 1
  ]

-- What the system calls of `mgmt_send_command` answer: the descriptor, whether bind and sendto
-- succeed, whether poll reports an event in time, and the size and bytes that recv stores.
pub record Exchange : Type 0 where
  pub fd : ℤ
  pub bound : Bool
  pub sent : Bool
  pub polled : Bool
  pub received : ℤ
  pub stored : Response

-- `sizeof(MgmtCommandResponse)`, which the compiler fixes, is an argument. The result has the bytes
-- of `*resp`, and whether the temporary path is unlinked and the descriptor closed at the end.
unfoldable pub mgmt_send_command : ℕ → Exchange → Response → ℤ × Response × Bool
mgmt_send_command size x resp =
    if is_negative x.fd
    then (ret_err, resp, false)
    else if x.bound && x.sent && x.polled
    then elim x.received [
      | pos n ↦ (if n == size then ret_ok else ret_err, x.stored, true)
      | negsuc n ↦ (ret_err, resp, true)
    ]
    else (ret_err, resp, true)
