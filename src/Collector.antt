-- ===== src/Collector.antt =====
-- Collector/src/poll_io.c: a datagram goes into the shared segment, and a notification into the
-- queue to the router.
pub mod Loop
pub mod Stop
pub mod SetUp
use study_c.Prelude.{
  ℕ, ◌-◌, Bool, true, false, Option, none, some, List, [], ◌∷◌, ◌++◌, Bytes, take, length, ◌==◌,
  if◌then◌else◌, pos,
}
use study_c.Ipc.{Notify, msg_type_shm_notify}
use study_c.Shm.{SharedData, Locking, write, max_payload_size}

-- What the collector shares with the router: the segment and the queue of notifications.
pub record Link : Type 0 where
  pub shared : Option SharedData
  pub queue : List Notify

abbrev pub status_id : ℕ
status_id = 100

abbrev pub data_ready : Notify
data_ready = record { mtype = msg_type_shm_notify; shm_status_id = status_id }

-- The rest of the handler, by what shm_api_write returned; `sent` says whether msgsnd (with
-- IPC_NOWAIT) took the message.
abbrev pub notify_router : Bool × Option SharedData → Bool → Link → Link
notify_router (true, shared) sent l = record {
  shared = shared;
  queue = if sent then l.queue ++ (data_ready ∷ []) else l.queue;
}
notify_router (false, shared) sent l = record l { shared = shared }

-- `handle_udp_read`. `datagram` is what waits at the socket (`none`: recvfrom fails); recvfrom
-- takes at most `sizeof(buffer) - 1` bytes of it. The NUL that the code stores behind them ends the
-- string, so the bytes after it in `buffer` are left out.
unfoldable pub handle_udp_read : Option Bytes → Locking → Bool → Link → Link
handle_udp_read none lock sent l = l
handle_udp_read (some datagram) lock sent l =
    let received = take (max_payload_size - 1) datagram in
    if length received == 0
    then l
    else notify_router (write max_payload_size l.shared lock (pos status_id) (received ++ (0 ∷ [])))
        sent l
