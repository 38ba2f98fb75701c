-- ===== src/Ipc.antt =====
-- The messages that the processes and threads exchange: IpcNotifyMessage of
-- SHM/include/shared_ipc.h, and InternalMsg of Router/src/msg_common.h with the functions of
-- Router/src/msg_common.c. A System V queue is the list of its messages, oldest first.
pub mod Build
pub mod Emptying
use study_c.Prelude.{
  ℕ, ◌+◌, ◌*◌, ◌/◌, ◌%◌, ◌^◌, ◌-◌, Bool, true, false, Option, none, some, List, [], ◌∷◌, ◌++◌,
  Bytes, strncpy, set, replicate, get_elem?, drop, ◌==◌, if◌then◌else◌, ℤ, ret_ok, ret_err,
}

abbrev pub msg_type_shm_notify : ℕ
msg_type_shm_notify = 1

abbrev pub msg_type_shm_quit : ℕ
msg_type_shm_quit = 2

-- `IpcNotifyMessage`
pub record Notify : Type 0 where
  pub mtype : ℕ
  pub shm_status_id : ℕ

-- `EventType`
pub data EventType : Type 0 where
  ev_quit ev_udp ev_ipc ev_fatal ev_signal : EventType

abbrev pub payload_size : ℕ
payload_size = 256

-- `InternalMsg`: the union is its 256 bytes.
pub record InternalMsg : Type 0 where
  pub mtype : ℕ
  pub event : EventType
  pub payload : Bytes

-- The four bytes of an `int` on the little-endian machines that the program runs on.
abbrev pub le32 : ℕ → Bytes
le32 n = n % 256 ∷ n / 2 ^ 8 % 256 ∷ n / 2 ^ 16 % 256 ∷ n / 2 ^ 24 % 256 ∷ []

abbrev pub from_le32 : Bytes → ℕ
from_le32 (a ∷ b ∷ c ∷ d ∷ rest) = a + 2 ^ 8 * b + 2 ^ 16 * c + 2 ^ 24 * d
from_le32 _ = 0

-- `data.sig_num`, as a bit pattern
abbrev pub sig_num : InternalMsg → ℕ
sig_num m = from_le32 m.payload

-- `if (text) { strncpy(..); data[255] = 0; }`
abbrev pub put_text : Option Bytes → Bytes → Bytes
put_text none bytes = bytes
put_text (some text) bytes = set (strncpy bytes text (payload_size - 1)) (payload_size - 1) 0

-- `if (sig) data.sig_num = sig;`
abbrev pub put_sig : ℕ → Bytes → Bytes
put_sig sig bytes = if sig == 0 then bytes else le32 sig ++ drop 4 bytes

unfoldable pub build_internal_msg : EventType → Option Bytes → ℕ → InternalMsg
build_internal_msg event text sig = record {
  mtype = 1;
  event = event;
  payload = put_sig sig (put_text text (replicate payload_size 0));
}

-- `send_to_main`, where `sent` says whether msgsnd took the message
unfoldable pub send_to_main : Bool → List InternalMsg → Option InternalMsg → ℤ × List InternalMsg
send_to_main sent queue none = (ret_err, queue)
send_to_main sent queue (some msg) =
    if sent then (ret_ok, queue ++ (msg ∷ [])) else (ret_err, queue)

unfoldable pub send_quit_event : Bool → List InternalMsg → ℤ × List InternalMsg
send_quit_event sent queue =
    send_to_main sent queue (some (build_internal_msg EventType.ev_quit none 0))

unfoldable pub send_udp_event : Bool → List InternalMsg → Option Bytes → ℤ × List InternalMsg
send_udp_event sent queue text =
    send_to_main sent queue (some (build_internal_msg EventType.ev_udp text 0))

unfoldable pub send_fatal_event : Bool → List InternalMsg → Option Bytes → ℤ × List InternalMsg
send_fatal_event sent queue text =
    send_to_main sent queue (some (build_internal_msg EventType.ev_fatal text 0))

unfoldable pub send_signal_event : Bool → List InternalMsg → ℕ → ℤ × List InternalMsg
send_signal_event sent queue sig =
    send_to_main sent queue (some (build_internal_msg EventType.ev_signal none sig))

unfoldable pub send_ipc_event : Bool → List InternalMsg → Option Bytes → ℤ × List InternalMsg
send_ipc_event sent queue text =
    send_to_main sent queue (some (build_internal_msg EventType.ev_ipc text 0))
