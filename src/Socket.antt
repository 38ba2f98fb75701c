-- ===== src/Socket.antt =====
-- Mgmt/src/mgmt_socket.c and Mgmt/src/mgmt_worker.c: the management socket, its request loop and
-- its statistics. What the system calls answer is an argument; the lock makes each count one step.
-- The module's handlers are `invoke`, and the rest of the process is a state of type `W`.
pub mod Counts
pub mod Lifetime
use study_c.Prelude.{
  ℕ, suc, ◌+◌, ◌-◌, ◌%◌, ◌^◌, Bool, true, false, Option, none, some, List, [], ◌∷◌, ltb,
  if◌then◌else◌, ℤ, pos, negsuc, ret_ok, ret_err, is_zero, is_negative, Bytes, strncpy, replicate,
}
use study_c.Protocol.{Request, Response, zero_response}
use study_c.Registry.{Registry}
use study_c.Registry.Dispatch.{dispatch}

abbrev pub unix_path_max : ℕ
unix_path_max = 108

-- `struct MgmtSocket`, without the address that is only handed to `bind`
pub record MgmtSocket : Type 0 where
  pub socket_fd : ℤ
  pub socket_path : Bytes
  pub total_requests : ℕ  -- uint64_t
  pub total_responses : ℕ  -- uint64_t
  pub failed_requests : ℕ  -- uint64_t

-- `mgmt_socket_create`, by the path, whether malloc gives memory, the descriptor that `socket`
-- returns, and whether `bind` succeeds.
unfoldable pub create : Option Bytes → Bool → ℤ → Bool → Option MgmtSocket
create none memory fd bound = none
create (some path) memory fd bound =
    if memory
    then if is_negative fd
      then none
      else if bound
      then some (record {
        socket_fd = fd;
        socket_path = strncpy (replicate unix_path_max 0) path (unix_path_max - 1);
        total_requests = 0;
        total_responses = 0;
        failed_requests = 0;
      })
      else none
    else none

unfoldable pub get_fd : Option MgmtSocket → ℤ
get_fd none = ret_err
get_fd (some s) = s.socket_fd

-- The answers of one call of `mgmt_socket_process_one`: whether setsockopt succeeds, the bytes of
-- `req` after recvfrom (`none`: it fails or times out; of a short datagram they are partly stale),
-- and whether sendto succeeds.
pub record Io : Type 0 where
  pub timeout_set : Bool
  pub received : Option Request
  pub delivered : Bool

abbrev pub u64 : ℕ → ℕ
u64 n = n % 2 ^ 64

abbrev pub is_positive : ℤ → Bool
is_positive (pos n) = ltb 0 n
is_positive (negsuc n) = false

abbrev pub count_request : MgmtSocket → MgmtSocket
count_request s = record s { total_requests = u64 (s.total_requests + 1) }

-- `if (dispatch_result != 0) failed_requests++;`
abbrev pub count_failure : ℤ → MgmtSocket → MgmtSocket
count_failure result s =
    if is_zero result then s else record s { failed_requests = u64 (s.failed_requests + 1) }

abbrev pub count_response : MgmtSocket → MgmtSocket
count_response s = record s { total_responses = u64 (s.total_responses + 1) }

-- What a call leaves: its code, the response that went out, the socket, the registry, the process.
pub record Processed (H C W : Type 0) : Type 0 where
  pub code : ℤ
  pub reply : Option Response
  pub socket : MgmtSocket
  pub registry : Registry H C
  pub process : W

module _ {H C W : Type 0} where
  abbrev pub nothing_done : MgmtSocket → Registry H C → W → Processed H C W
  nothing_done s r w = record {
    code = ret_err;
    reply = none;
    socket = s;
    registry = r;
    process = w;
  }

  -- From the dispatch on: `sendto`, and the count of responses.
  abbrev pub respond :
      Bool → MgmtSocket → Option (ℤ × Option Response × Registry H C × W) → Option (Processed H C W)
  respond delivered s none = none
  respond delivered s (some (result, resp, r, w)) =
      let s' = count_failure result s in
      some (
        if delivered
        then record {
          code = ret_ok;
          reply = resp;
          socket = count_response s';
          registry = r;
          process = w;
        }
        else record { code = ret_err; reply = none; socket = s'; registry = r; process = w })

module _ {H C W : Type 0} (invoke : H → Option C → Request → Response → W → ℤ × Response × W) where
  abbrev pub receive : Io → MgmtSocket → Registry H C → W → Option (Processed H C W)
  receive io s r w = elim io.received [
    | none ↦ some (nothing_done s r w)
    | some req ↦
        respond io.delivered (count_request s) (dispatch invoke (some req) (some zero_response) r w)
  ]

  -- `mgmt_socket_process_one` on a handle that is not null; `none` is a call through NULL.
  unfoldable pub process_one : ℤ → Io → MgmtSocket → Registry H C → W → Option (Processed H C W)
  process_one timeout_ms io s r w =
      if is_negative s.socket_fd
      then some (nothing_done s r w)
      else if is_positive timeout_ms
      then if io.timeout_set then receive io s r w else some (nothing_done s r w)
      else receive io s r w

  -- The loop of `mgmt_socket_process_all`, with the number processed: one round for each answer of
  -- its setsockopt and `Io`. After the last one the next receive times out.
  unfoldable pub process_rounds :
      List (Bool × Io)
      → ℕ
      → MgmtSocket
      → Registry H C
      → W
      → Option (ℕ × MgmtSocket × Registry H C × W)
  process_rounds [] n s r w = some (n, s, r, w)
  process_rounds ((timeout_set, io) ∷ rounds) n s r w = elim timeout_set [
    | false ↦ some (n, s, r, w)
    | true ↦ elim (process_one (pos 1) io s r w) [
      | none ↦ none
      | some p ↦ elim (is_negative p.code) [
        | true ↦ some (n, p.socket, p.registry, p.process)
        | false ↦ process_rounds rounds (suc n) p.socket p.registry p.process
      ]
    ]
  ]

  abbrev pub reported :
      Option (ℕ × MgmtSocket × Registry H C × W) → Option (ℤ × MgmtSocket × Registry H C × W)
  reported none = none
  reported (some (n, s, r, w)) = some (pos n, s, r, w)

  -- `mgmt_socket_process_all` on a handle that is not null.
  unfoldable pub process_all :
      List (Bool × Io) → MgmtSocket → Registry H C → W → Option (ℤ × MgmtSocket × Registry H C × W)
  process_all rounds s r w =
      if is_negative s.socket_fd
      then some (ret_err, s, r, w)
      else reported (process_rounds rounds 0 s r w)

  -- The loop of `mgmt_worker` over the rounds given; the flag says whether it still runs. The
  -- module's `keep_running` is a part of the process, so a handler can clear it.
  unfoldable pub worker :
      (W → Bool)
      → List Io
      → MgmtSocket
      → Registry H C
      → W
      → Option (Bool × MgmtSocket × Registry H C × W)
  worker keep_running [] s r w = some (keep_running w, s, r, w)
  worker keep_running (io ∷ rounds) s r w = elim (keep_running w) [
    | false ↦ some (false, s, r, w)
    | true ↦ elim (process_one (pos 1000) io s r w) [
      | none ↦ none
      | some p ↦ worker keep_running rounds p.socket p.registry p.process
    ]
  ]

-- `mgmt_socket_stats`: requests, responses and failures, for out-pointers that are all given
unfoldable pub stats : Option MgmtSocket → ℤ × Option (ℕ × ℕ × ℕ)
stats none = (ret_err, none)
stats (some s) = (ret_ok, some (s.total_requests, s.total_responses, s.failed_requests))

unfoldable pub stats_reset : Option MgmtSocket → ℤ × Option MgmtSocket
stats_reset none = (ret_err, none)
stats_reset (some s) =
    (ret_ok, some (record s { total_requests = 0; total_responses = 0; failed_requests = 0 }))
