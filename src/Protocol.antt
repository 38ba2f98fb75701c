-- ===== src/Protocol.antt =====
-- Mgmt/include/mgmt_protocol.h and Mgmt/src/mgmt_protocol.c: the wire structures of the management
-- protocol and the functions that fill and read them. A pointer that may be NULL is an `Option`;
-- a function that writes through a pointer returns what the object holds afterwards.
-- `clock_gettime` is the argument `now`.
pub mod Init
pub mod Latency
use study_c.Prelude.{
  ℕ, ◌+◌, ◌-◌, ◌*◌, ◌/◌, ◌%◌, ◌^◌, Bool, true, false, Option, none, some, ◌++◌, Bytes, codes, c_str,
  strncpy, memcpy, replicate, get_elem?, ltb, leb, ◌==◌, if◌then◌else◌, ℤ, pos, negsuc,
}

abbrev pub cmd_ping : ℕ
cmd_ping = 0

abbrev pub cmd_set_log_level : ℕ
cmd_set_log_level = 1

abbrev pub cmd_get_status : ℕ
cmd_get_status = 2

abbrev pub cmd_get_metrics : ℕ
cmd_get_metrics = 3

abbrev pub cmd_set_buffer_size : ℕ
cmd_set_buffer_size = 4

abbrev pub cmd_enable_profiling : ℕ
cmd_enable_profiling = 5

abbrev pub cmd_reset_metrics : ℕ
cmd_reset_metrics = 6

abbrev pub cmd_shutdown : ℕ
cmd_shutdown = 7

abbrev pub cmd_get_config : ℕ
cmd_get_config = 8

abbrev pub cmd_enable_tracing : ℕ
cmd_enable_tracing = 9

abbrev pub cmd_max : ℕ
cmd_max = 16

abbrev pub result_ok : ℕ
result_ok = 0

abbrev pub result_invalid_cmd : ℕ
result_invalid_cmd = 1

abbrev pub result_module_not_found : ℕ
result_module_not_found = 2

abbrev pub result_handler_failed : ℕ
result_handler_failed = 3

abbrev pub payload_request_size : ℕ
payload_request_size = 512

abbrev pub payload_response_size : ℕ
payload_response_size = 2048

abbrev pub module_name_size : ℕ
module_name_size = 64

-- `struct timespec`. `sec` is the bit pattern of the 64-bit `tv_sec`, since the code only reads it
-- as a `uint64_t`; `tv_nsec` is signed.
pub record Timespec : Type 0 where
  pub sec : ℕ
  pub nsec : ℤ

abbrev pub epoch : Timespec
epoch = record { sec = 0; nsec = pos 0 }

-- `MgmtCommandRequest`
pub record Request : Type 0 where
  pub request_id : ℕ
  pub cmd_type : ℕ
  pub flags : ℕ
  pub payload_len : ℕ
  pub timestamp : Timespec
  pub target_module : Bytes
  pub payload : Bytes

-- `MgmtCommandResponse`, without its padding bytes
pub record Response : Type 0 where
  pub request_id : ℕ
  pub result_code : ℕ
  pub request_timestamp : Timespec
  pub response_timestamp : Timespec
  pub source_module : Bytes
  pub payload : Bytes

-- What `memset(.., 0, sizeof ..)` leaves.
abbrev pub zero_request : Request
zero_request = record {
  request_id = 0;
  cmd_type = 0;
  flags = 0;
  payload_len = 0;
  timestamp = epoch;
  target_module = replicate module_name_size 0;
  payload = replicate payload_request_size 0;
}

abbrev pub zero_response : Response
zero_response = record {
  request_id = 0;
  result_code = 0;
  request_timestamp = epoch;
  response_timestamp = epoch;
  source_module = replicate module_name_size 0;
  payload = replicate payload_response_size 0;
}

-- `strncpy(dst, module, MGMT_MODULE_NAME_SIZE - 1)`, skipped for NULL
abbrev pub copy_name : Bytes → Option Bytes → Bytes
copy_name dst none = dst
copy_name dst (some module_name) = strncpy dst module_name (module_name_size - 1)

-- The number of payload bytes that are copied into a buffer of `size` bytes.
abbrev pub copy_len : ℕ → ℕ → ℕ
copy_len size len = if ltb size len then size else len

-- The payload branch of `mgmt_request_init`: the bytes and `payload_len`.
abbrev pub request_payload : Bytes → Option Bytes → ℕ → Bytes × ℕ
request_payload dst none len = (dst, 0)
request_payload dst (some src) len =
    if ltb 0 len
    then (
      memcpy dst src (copy_len payload_request_size len),
      copy_len payload_request_size len % 2 ^ 16,
    )
    else (dst, 0)

unfoldable pub request_init :
    Timespec → Option Request → ℕ → Option Bytes → Option Bytes → ℕ → Option Request
request_init now none cmd_type module_name payload len = none
request_init now (some _) cmd_type module_name payload len =
    let (bytes, n) = request_payload zero_request.payload payload len in
    some (record zero_request {
      cmd_type = cmd_type;
      timestamp = now;
      target_module = copy_name zero_request.target_module module_name;
      payload = bytes;
      payload_len = n;
    })

-- The payload branch of `mgmt_response_init`.
abbrev pub response_payload : Bytes → Option Bytes → ℕ → Bytes
response_payload dst none len = dst
response_payload dst (some src) len =
    if ltb 0 len then memcpy dst src (copy_len payload_response_size len) else dst

unfoldable pub response_init :
    Timespec → Option Response → ℕ → ℕ → Option Bytes → Option Bytes → ℕ → Option Response
response_init now none request_id result module_name payload len = none
response_init now (some _) request_id result module_name payload len = some (record zero_response {
  request_id = request_id;
  result_code = result;
  response_timestamp = now;
  source_module = copy_name zero_response.source_module module_name;
  payload = response_payload zero_response.payload payload len;
})

abbrev pub usec_per_sec : ℕ
usec_per_sec = 1000000

-- `tv_nsec / 1000`, rounded towards 0, as a `uint64_t`
abbrev pub nsec_us : ℤ → ℕ
nsec_us (pos n) = n / 1000
nsec_us (negsuc n) = (2 ^ 64 - (n + 1) / 1000) % 2 ^ 64

unfoldable pub time_us : Timespec → ℕ
time_us t = (t.sec * usec_per_sec % 2 ^ 64 + nsec_us t.nsec) % 2 ^ 64

unfoldable pub response_latency_us : Option Response → ℕ
response_latency_us none = 0
response_latency_us (some resp) =
    let req_us = time_us resp.request_timestamp in
    let resp_us = time_us resp.response_timestamp in
    if ltb req_us resp_us then resp_us - req_us else 0

-- `target_module[0] == '\0'`
abbrev pub name_is_empty : Bytes → Bool
name_is_empty name = elim (get_elem? name 0) [ none ↦ true | some x ↦ x == 0 ]

unfoldable pub request_validate : Option Request → Bool
request_validate none = false
request_validate (some req) =
    if leb cmd_max req.cmd_type
    then false
    else if name_is_empty req.target_module
    then false
    else if ltb payload_request_size req.payload_len
    then false
    else true

unfoldable pub result_str : ℕ → Bytes
result_str c =
    if c == 0
    then codes "OK"
    else if c == 1
    then codes "INVALID_CMD"
    else if c == 2
    then codes "MODULE_NOT_FOUND"
    else if c == 3
    then codes "HANDLER_FAILED"
    else if c == 4
    then codes "TIMEOUT"
    else if c == 5
    then codes "BUFFER_OVERFLOW"
    else if c == 6
    then codes "UNAUTHORIZED"
    else if c == 7
    then codes "INTERNAL_ERROR"
    else codes "UNKNOWN"

unfoldable pub command_str : ℕ → Bytes
command_str c =
    if c == cmd_ping
    then codes "PING"
    else if c == cmd_set_log_level
    then codes "SET_LOG_LEVEL"
    else if c == cmd_get_status
    then codes "GET_STATUS"
    else if c == cmd_get_metrics
    then codes "GET_METRICS"
    else if c == cmd_set_buffer_size
    then codes "SET_BUFFER_SIZE"
    else if c == cmd_enable_profiling
    then codes "ENABLE_PROFILING"
    else if c == cmd_reset_metrics
    then codes "RESET_METRICS"
    else if c == cmd_shutdown
    then codes "SHUTDOWN"
    else if c == cmd_get_config
    then codes "GET_CONFIG"
    else if c == cmd_enable_tracing
    then codes "ENABLE_TRACING"
    else codes "UNKNOWN"

-- What stands at `req->target_module`: where the field holds no NUL, the string functions read on
-- into the payload, which lies behind it with no padding.
abbrev pub target_region : Request → Bytes
target_region req = req.target_module ++ req.payload
