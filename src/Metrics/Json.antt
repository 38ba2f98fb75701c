-- ===== src/Metrics/Json.antt =====
-- Mgmt/src/metrics_collector.c, metrics_snapshot_to_json: the snapshot as a line of JSON. Each
-- `APPEND` is one line of the list.
use study_c.Prelude.{
  ℕ, ◌-◌, ◌<◌, ◌^◌, ◌≡◌, refl, sym, ap, ◌∙◌, Bool, true, false, Option, none, some, List, [], ◌∷◌,
  ◌++◌, arith, Bytes, codes, unsigned, decimal, length, take, c_str, ltb, if◌then◌else◌, ℤ, pos,
  negsuc, ret_err,
}
use study_c.Metrics.{Snapshot}
use study_c.Printing.{Cursor, append_all, at_front}
use study_c.Printing.Exact.{joined, at_front-IsPrinted}
use study_c.Printing.Checked.{IsAppended, append_all-IsAppended}

-- A `long` by its bit pattern.
abbrev signed : ℕ → ℤ
signed n = if ltb n (2 ^ 63) then pos n else negsuc (2 ^ 64 - 1 - n)

-- The first `APPEND`, and those behind it.
abbrev first_line : Snapshot → Bytes
first_line s =
    codes "{\"timestamp\":"
    ++ decimal (signed s.timestamp)
    ++ codes ",\"snapshot_id\":"
    ++ unsigned s.snapshot_id
    ++ codes ",\"uptime_seconds\":"
    ++ unsigned s.uptime_seconds
    ++ codes ","

-- `"<name>":<value>` and what follows it
abbrev field : Bytes → ℕ → Bytes → Bytes
field name value behind = codes "\"" ++ name ++ codes "\":" ++ unsigned value ++ behind

abbrev next_lines : Snapshot → List Bytes
next_lines s =
    codes "\"collector\":{"
    ∷ field (codes "events_processed") s.collector.events_processed (codes ",")
    ∷ field (codes "buffer_util_pct") s.collector.buffer_util_pct (codes ",")
    ∷ field (codes "latency_avg_us") s.collector.latency.avg_us (codes ",")
    ∷ field (codes "latency_p99_us") s.collector.latency.p99_us []
    ∷ codes "},"
    ∷ codes "\"router\":{"
    ∷ field (codes "shm_reads_total") s.router.shm_reads_total (codes ",")
    ∷ field (codes "tcp_forwards_total") s.router.tcp_forwards_total (codes ",")
    ∷ field (codes "active_tcp_conns") s.router.active_tcp_conns []
    ∷ codes "},"
    ∷ codes "\"viewer\":{"
    ∷ field (codes "messages_processed") s.viewer.messages_processed (codes ",")
    ∷ field (codes "tcp_bytes_received") s.viewer.tcp_bytes_received (codes ",")
    ∷ field (codes "active_clients") s.viewer.active_clients []
    ∷ codes "},"
    ∷ field (codes "total_events") s.total_events (codes ",")
    ∷ field (codes "total_errors") s.total_errors (codes "}")
    ∷ []

-- The whole text.
abbrev pub json : Snapshot → Bytes
json s = joined (first_line s ∷ next_lines s)

abbrev finish : Option (Bool × Cursor) → Option (ℤ × Bytes)
finish none = none
finish (some (false, c)) = some (ret_err, c.buf)
finish (some (true, c)) = some (pos c.offset, c.buf)

-- metrics_snapshot_to_json on a snapshot and a buffer that are given; `none` is a write behind the
-- buffer.
unfoldable pub snapshot_to_json : Option Snapshot → Bytes → Option (ℤ × Bytes)
snapshot_to_json none buf = some (ret_err, buf)
snapshot_to_json (some s) [] = some (ret_err, [])
snapshot_to_json (some s) (b ∷ bs) =
    finish (append_all (first_line s ∷ next_lines s) (at_front (b ∷ bs)))

finished :
    (size : ℕ) (whole : Bytes) (ok : Bool) (c : Cursor)
    → IsAppended size whole ok c
    → (code : ℤ) × (finish (some (ok, c)) ≡ some (code, c.buf))
      × (code ≡ (if ltb (length whole) (size - 1) then pos (length whole) else ret_err))
finished size whole true c f = (pos c.offset, refl, rw (sym f.fits) (ap pos (f.counted refl)))
finished size whole false c f = (ret_err, refl, rw (sym f.fits) refl)

-- On a nonempty buffer of less than 2^31 bytes metrics_snapshot_to_json never writes behind it, and
-- leaves in it as much of the text as fits with the terminator. It returns the text's length where
-- that is below the size less one, and -1 otherwise.
pub snapshot_to_json-text :
    (s : Snapshot) (buf : Bytes)
    → 0 < length buf
    → length buf < 2 ^ 31
    → (code : ℤ) × (buf' : Bytes) × (snapshot_to_json (some s) buf ≡ some (code, buf'))
      × (length buf' ≡ length buf)
      × (c_str buf' ≡ take (length buf - 1) (json s))
      × (code ≡ (if ltb (length (json s)) (length buf - 1) then pos (length (json s)) else ret_err))
unfolding snapshot_to_json
snapshot_to_json-text s [] h small = absurd (omega (arith, h))
snapshot_to_json-text s (b ∷ bs) h small =
    let buf = b ∷ bs in
    let (ok, c, e, f) =
      append_all-IsAppended (length buf) [] (first_line s) (next_lines s) (at_front buf)
        (at_front-IsPrinted buf) (omega arith) small in
    let (code, e', v) = finished (length buf) (json s) ok c f in
    (code, c.buf, ap finish e ∙ e', f.sized, f.held, v)
