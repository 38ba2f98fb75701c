-- ===== src/Metrics/Types.antt =====
-- The structures of Mgmt/include/metrics_collector.h. An unsigned integer is a native number, taken
-- modulo its width at each write.
use study_c.Prelude.{ℕ, ◌%◌, ◌^◌}

abbrev pub u32 : ℕ → ℕ
u32 n = n % 2 ^ 32

abbrev pub u64 : ℕ → ℕ
u64 n = n % 2 ^ 64

pub record LatencyStats : Type 0 where
  pub min_us : ℕ
  pub max_us : ℕ
  pub avg_us : ℕ
  pub p99_us : ℕ
  pub sample_count : ℕ

abbrev pub no_samples : LatencyStats
no_samples = record { min_us = 0; max_us = 0; avg_us = 0; p99_us = 0; sample_count = 0 }

pub record CollectorMetrics : Type 0 where
  pub events_processed : ℕ
  pub events_per_sec : ℕ
  pub bytes_received : ℕ
  pub shm_writes_ok : ℕ
  pub shm_writes_failed : ℕ
  pub mq_sends_ok : ℕ
  pub mq_sends_failed : ℕ
  pub buffer_util_pct : ℕ
  pub latency : LatencyStats

pub record RouterMetrics : Type 0 where
  pub shm_reads_total : ℕ
  pub shm_reads_failed : ℕ
  pub tcp_forwards_total : ℕ
  pub tcp_bytes_sent : ℕ
  pub active_tcp_conns : ℕ
  pub buffer_util_pct : ℕ
  pub router_thread_alive : ℕ
  pub latency : LatencyStats

pub record ViewerMetrics : Type 0 where
  pub tcp_accepts_total : ℕ
  pub tcp_bytes_received : ℕ
  pub messages_processed : ℕ
  pub output_count : ℕ
  pub active_clients : ℕ
  pub output_buffer_util_pct : ℕ
  pub latency : LatencyStats

-- `MetricsSnapshot`; `timestamp` is the bit pattern of a 64-bit `time_t`.
pub record Snapshot : Type 0 where
  pub timestamp : ℕ
  pub snapshot_id : ℕ
  pub collector : CollectorMetrics
  pub router : RouterMetrics
  pub viewer : ViewerMetrics
  pub total_events : ℕ
  pub total_errors : ℕ
  pub uptime_seconds : ℕ

-- `struct MetricsCollectorState`
pub record State : Type 0 where
  pub snapshot : Snapshot
  pub startup_time : ℕ
  pub next_snapshot_id : ℕ

-- What `memset(.., 0, sizeof(MetricsSnapshot))` leaves.
abbrev pub zero_snapshot : Snapshot
zero_snapshot = record {
  timestamp = 0;
  snapshot_id = 0;
  collector = record {
    events_processed = 0;
    events_per_sec = 0;
    bytes_received = 0;
    shm_writes_ok = 0;
    shm_writes_failed = 0;
    mq_sends_ok = 0;
    mq_sends_failed = 0;
    buffer_util_pct = 0;
    latency = no_samples;
  };
  router = record {
    shm_reads_total = 0;
    shm_reads_failed = 0;
    tcp_forwards_total = 0;
    tcp_bytes_sent = 0;
    active_tcp_conns = 0;
    buffer_util_pct = 0;
    router_thread_alive = 0;
    latency = no_samples;
  };
  viewer = record {
    tcp_accepts_total = 0;
    tcp_bytes_received = 0;
    messages_processed = 0;
    output_count = 0;
    active_clients = 0;
    output_buffer_util_pct = 0;
    latency = no_samples;
  };
  total_events = 0;
  total_errors = 0;
  uptime_seconds = 0;
}
