-- ===== src/Metrics.antt =====
-- Mgmt/include/metrics_collector.h and Mgmt/src/metrics_collector.c: the counters that the
-- processes keep and the snapshot made of them. A handle that may be NULL is an `Option`; the lock
-- makes each function one step. `none` as a result stands for a division by zero, which
-- `latency_record` reaches when its 32-bit sample count wraps; return codes are those of the
-- source. `time(NULL)` is the argument `now`.
mod Types
pub mod Latency
pub mod Counters
pub mod Json
pub use Types.*
use study_c.Prelude.{
  ℕ, ◌+◌, ◌-◌, ◌*◌, ◌/◌, ◌%◌, ◌^◌, Bool, true, false, Option, none, some, Bytes, codes, str_eq, ltb,
  ◌==◌, if◌then◌else◌, ℤ, ret_ok, ret_err,
}

-- The new minimum and maximum.
abbrev pub widen : LatencyStats → ℕ → LatencyStats
widen s x = if s.sample_count == 0 then record s { min_us = x; max_us = x } else record s {
  min_us = if ltb x s.min_us then x else s.min_us;
  max_us = if ltb s.max_us x then x else s.max_us;
}

unfoldable pub latency_record : LatencyStats → ℕ → Option LatencyStats
latency_record s x =
    if u32 (s.sample_count + 1) == 0
    then none
    else some (record (widen s x) {
      avg_us = u64 (u64 (s.avg_us * s.sample_count) + x) / u32 (s.sample_count + 1);
      sample_count = u32 (s.sample_count + 1);
    })

unfoldable pub latency_reset : LatencyStats → LatencyStats
latency_reset s = no_samples

-- `metrics_init`, where `malloc` gives memory
unfoldable pub init : ℕ → State
init now = record {
  snapshot = record zero_snapshot { timestamp = now };
  startup_time = now;
  next_snapshot_id = 0;
}

unfoldable pub take_snapshot : ℕ → State → Snapshot × State
take_snapshot now s = (
  record (s.snapshot) {
    timestamp = now;
    snapshot_id = s.next_snapshot_id;
    uptime_seconds = u32 (u64 (now + 2 ^ 64 - s.startup_time));
    total_events = u64 (
        s.snapshot.collector.events_processed + s.snapshot.router.shm_reads_total
        + s.snapshot.viewer.messages_processed);
    total_errors = u64 (
        s.snapshot.collector.shm_writes_failed + s.snapshot.collector.mq_sends_failed
        + s.snapshot.router.shm_reads_failed);
  },
  record s { next_snapshot_id = u32 (s.next_snapshot_id + 1) },
)

-- `metrics_snapshot`; the second flag says whether `snap` is given.
unfoldable pub metrics_snapshot : ℕ → Option State → Bool → ℤ × Option Snapshot × Option State
metrics_snapshot now none want = (ret_err, none, none)
metrics_snapshot now (some s) false = (ret_err, none, some s)
metrics_snapshot now (some s) true =
    let (snap, s') = take_snapshot now s in (ret_ok, some snap, some s')

abbrev pub with_collector : State → CollectorMetrics → State
with_collector s c = record s { snapshot = record (s.snapshot) { collector = c } }

abbrev pub with_router : State → RouterMetrics → State
with_router s c = record s { snapshot = record (s.snapshot) { router = c } }

abbrev pub with_viewer : State → ViewerMetrics → State
with_viewer s c = record s { snapshot = record (s.snapshot) { viewer = c } }

abbrev pub collector_event : CollectorMetrics → ℕ → Bool → Option CollectorMetrics
collector_event c latency_us success =
    if success
    then elim (latency_record c.latency latency_us) [
      | none ↦ none
      | some l ↦ some (record c {
        events_processed = u64 (c.events_processed + 1);
        shm_writes_ok = u64 (c.shm_writes_ok + 1);
        latency = l;
      })
    ]
    else some (record c {
      events_processed = u64 (c.events_processed + 1);
      shm_writes_failed = u64 (c.shm_writes_failed + 1);
    })

unfoldable pub update_collector : Option State → ℕ → Bool → Option (ℤ × Option State)
update_collector none latency_us success = some (ret_err, none)
update_collector (some s) latency_us success =
    elim (collector_event s.snapshot.collector latency_us success) [
      | none ↦ none
      | some c ↦ some (ret_ok, some (with_collector s c))
    ]

abbrev pub router_event : RouterMetrics → Bool → ℕ → ℕ → Option RouterMetrics
router_event c shm_success tcp_bytes latency_us =
    if shm_success
    then elim (latency_record c.latency latency_us) [
      | none ↦ none
      | some l ↦ some (record c {
        shm_reads_total = u64 (c.shm_reads_total + 1);
        tcp_forwards_total = u64 (c.tcp_forwards_total + 1);
        tcp_bytes_sent = u64 (c.tcp_bytes_sent + tcp_bytes);
        latency = l;
      })
    ]
    else some (record c {
      shm_reads_total = u64 (c.shm_reads_total + 1);
      shm_reads_failed = u64 (c.shm_reads_failed + 1);
    })

unfoldable pub update_router : Option State → Bool → ℕ → ℕ → Option (ℤ × Option State)
update_router none shm_success tcp_bytes latency_us = some (ret_err, none)
update_router (some s) shm_success tcp_bytes latency_us =
    elim (router_event s.snapshot.router shm_success tcp_bytes latency_us) [
      | none ↦ none
      | some c ↦ some (ret_ok, some (with_router s c))
    ]

abbrev pub viewer_event : ViewerMetrics → ℕ → ℕ → Option ViewerMetrics
viewer_event c bytes_rcvd latency_us = elim (latency_record c.latency latency_us) [
  | none ↦ none
  | some l ↦ some (record c {
    messages_processed = u64 (c.messages_processed + 1);
    tcp_bytes_received = u64 (c.tcp_bytes_received + bytes_rcvd);
    latency = l;
  })
]

unfoldable pub update_viewer : Option State → ℕ → ℕ → Option (ℤ × Option State)
update_viewer none bytes_rcvd latency_us = some (ret_err, none)
update_viewer (some s) bytes_rcvd latency_us =
    elim (viewer_event s.snapshot.viewer bytes_rcvd latency_us) [
      | none ↦ none
      | some c ↦ some (ret_ok, some (with_viewer s c))
    ]

unfoldable pub set_buffer_util : Option State → Option Bytes → ℕ → ℤ × Option State
set_buffer_util none name util_pct = (ret_err, none)
set_buffer_util (some s) none util_pct = (ret_err, some s)
set_buffer_util (some s) (some name) util_pct =
    if str_eq name (codes "collector")
    then (
      ret_ok,
      some (with_collector s (record (s.snapshot.collector) { buffer_util_pct = util_pct })),
    )
    else if str_eq name (codes "router")
    then (ret_ok, some (with_router s (record (s.snapshot.router) { buffer_util_pct = util_pct })))
    else if str_eq name (codes "viewer")
    then (
      ret_ok,
      some (with_viewer s (record (s.snapshot.viewer) { output_buffer_util_pct = util_pct })),
    )
    else (ret_err, some s)

unfoldable pub set_active_connections : Option State → Option Bytes → ℕ → ℤ × Option State
set_active_connections none name count = (ret_err, none)
set_active_connections (some s) none count = (ret_err, some s)
set_active_connections (some s) (some name) count =
    if str_eq name (codes "router")
    then (ret_ok, some (with_router s (record (s.snapshot.router) { active_tcp_conns = count })))
    else if str_eq name (codes "viewer")
    then (ret_ok, some (with_viewer s (record (s.snapshot.viewer) { active_clients = count })))
    else (ret_err, some s)

unfoldable pub metrics_reset : ℕ → Option State → ℤ × Option State
metrics_reset now none = (ret_err, none)
metrics_reset now (some s) =
    (ret_ok, some (record s { snapshot = record zero_snapshot { timestamp = now } }))
