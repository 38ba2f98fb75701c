-- ===== src/Metrics/Counters.antt =====
-- What the counters of the collector and of the router add up to, over any run of the operations.
use study_c.Prelude.{
  ℕ, suc, ◌+◌, ◌<◌, ◌^◌, ◌≡◌, refl, inl, inr, Bool, Option, none, some, List, [], ◌∷◌, arith,
  length, Bytes, ℤ, Option-cases,
}
use study_c.Metrics.{
  State, u64, LatencyStats, latency_record, update_collector, update_router, update_viewer,
  set_buffer_util, set_active_connections, metrics_reset, metrics_snapshot, init, take_snapshot,
}

-- The calls of the API on one handle.
pub data Op : Type 0 where
  collected : ℕ → Bool → Op
  routed : Bool → ℕ → ℕ → Op
  viewed : ℕ → ℕ → Op
  util_set : Bytes → ℕ → Op
  connections_set : Bytes → ℕ → Op
  cleared : ℕ → Op
  sampled : ℕ → Op

abbrev pub after : Option (ℤ × Option State) → Option State
after none = none
after (some (code, s)) = s

-- The state after a call; `none` is a division by zero.
unfoldable pub apply : Op → State → Option State
apply (collected l ok) s = after (update_collector (some s) l ok)
apply (routed ok b l) s = after (update_router (some s) ok b l)
apply (viewed b l) s = after (update_viewer (some s) b l)
apply (util_set m p) s = (set_buffer_util (some s) (some m) p).1
apply (connections_set m n) s = (set_active_connections (some s) (some m) n).1
apply (cleared now) s = (metrics_reset now (some s)).1
apply (sampled now) s = (metrics_snapshot now (some s) Bool.true).2

unfoldable pub run : List Op → State → Option State
run [] s = some s
run (op ∷ ops) s = elim (apply op s) [ none ↦ none | some s' ↦ run ops s' ]

-- Every event of the collector is a write that succeeded or failed, and every read of the router
-- one that was forwarded or failed.
pub record IsConserved (s : State) : Type 0 where
  pub collector_sum :
      s.snapshot.collector.events_processed
      ≡ u64 (s.snapshot.collector.shm_writes_ok + s.snapshot.collector.shm_writes_failed)
  pub router_sum :
      s.snapshot.router.shm_reads_total
      ≡ u64 (s.snapshot.router.tcp_forwards_total + s.snapshot.router.shm_reads_failed)

-- Room for `k` more samples in each of the three statistics.
pub record HasRoom (k : ℕ) (s : State) : Type 0 where
  pub collector_room : s.snapshot.collector.latency.sample_count + k < 2 ^ 32
  pub router_room : s.snapshot.router.latency.sample_count + k < 2 ^ 32
  pub viewer_room : s.snapshot.viewer.latency.sample_count + k < 2 ^ 32

latency_record-counts :
    (s : LatencyStats) (x : ℕ)
    → s.sample_count + 1 < 2 ^ 32
    → (t : LatencyStats) × (latency_record s x ≡ some t) × (t.sample_count ≡ s.sample_count + 1)
unfolding latency_record
latency_record-counts s x h = elim (Option-cases (latency_record s x)) [
  | inl e ↦ absurd (ground arith)
  | inr (t, e) ↦ (t, e, ground arith)
]

abbrev Kept : ℕ → Op → State → Type 0
Kept k op s = (t : State) × (apply op s ≡ some t) × IsConserved t × HasRoom k t

collected-keeps :
    (l : ℕ) (ok : Bool) (k : ℕ) (s : State)
    → IsConserved s
    → HasRoom (suc k) s
    → Kept k (collected l ok) s
unfolding apply update_collector
collected-keeps l ok k s c h =
    let (q, p, n) = latency_record-counts s.snapshot.collector.latency l (omega (arith, h)) in
    elim (Option-cases (apply (collected l ok) s)) [
      | inl e ↦ absurd (ground (arith, p))
      | inr (t, e) ↦ (t, e, ground (arith, p), ground (arith, p, n))
    ]

routed-keeps :
    (ok : Bool) (b l k : ℕ) (s : State)
    → IsConserved s
    → HasRoom (suc k) s
    → Kept k (routed ok b l) s
unfolding apply update_router
routed-keeps ok b l k s c h =
    let (q, p, n) = latency_record-counts s.snapshot.router.latency l (omega (arith, h)) in
    elim (Option-cases (apply (routed ok b l) s)) [
      | inl e ↦ absurd (ground (arith, p))
      | inr (t, e) ↦ (t, e, ground (arith, p), ground (arith, p, n))
    ]

viewed-keeps : (b l k : ℕ) (s : State) → IsConserved s → HasRoom (suc k) s → Kept k (viewed b l) s
unfolding apply update_viewer
viewed-keeps b l k s c h =
    let (q, p, n) = latency_record-counts s.snapshot.viewer.latency l (omega (arith, h)) in
    elim (Option-cases (apply (viewed b l) s)) [
      | inl e ↦ absurd (ground (arith, p))
      | inr (t, e) ↦ (t, e, ground (arith, p), ground (arith, p, n))
    ]

apply-keeps : (op : Op) (k : ℕ) (s : State) → IsConserved s → HasRoom (suc k) s → Kept k op s
unfolding apply set_buffer_util set_active_connections metrics_reset metrics_snapshot take_snapshot
apply-keeps (collected l ok) k s c h = collected-keeps l ok k s c h
apply-keeps (routed ok b l) k s c h = routed-keeps ok b l k s c h
apply-keeps (viewed b l) k s c h = viewed-keeps b l k s c h
apply-keeps (util_set m p) k s c h = elim (Option-cases (apply (util_set m p) s)) [
  | inl e ↦ absurd (ground arith)
  | inr (t, e) ↦ (t, e, ground arith, ground arith)
]
apply-keeps (connections_set m n) k s c h = elim (Option-cases (apply (connections_set m n) s)) [
  | inl e ↦ absurd (ground arith)
  | inr (t, e) ↦ (t, e, ground arith, ground arith)
]
apply-keeps (cleared now) k s c h = (_, refl, ground arith, ground arith)
apply-keeps (sampled now) k s c h = (_, refl, ground arith, ground arith)

run-keeps :
    (ops : List Op) (s : State)
    → IsConserved s
    → HasRoom (length ops) s
    → (t : State) × (run ops s ≡ some t) × IsConserved t
unfolding run
run-keeps [] s c h = (s, refl, c)
run-keeps (op ∷ ops) s c h =
    let (t, e, c', h') = apply-keeps op (length ops) s c h in
    let (u, e', d) = run-keeps ops t c' h' in (u, rw (e, run) e', d)

-- From metrics_init on, any run of fewer than 2^32 calls ends without a division by zero, and the
-- totals of the collector and of the router are the sums (modulo 2^64) of their successes and
-- failures.
pub run-IsConserved :
    (ops : List Op) (now : ℕ)
    → length ops < 2 ^ 32
    → (t : State) × (run ops (init now) ≡ some t) × IsConserved t
unfolding init
run-IsConserved ops now h = run-keeps ops (init now) (ground arith) (ground arith)
