-- ===== src/Examples/Counting.antt =====
-- Runs of metrics_collector.c.
use study_c.Prelude.{◌≡◌, true, false, some, List, [], ◌∷◌, arith}
use study_c.Metrics.{State, LatencyStats, no_samples, init}
use study_c.Metrics.Latency.{IsSummary, record_all, record_all-IsSummary, least, greatest, sum}
use study_c.Metrics.Counters.{Op, run, IsConserved, run-IsConserved}

record_all-IsSummary_example :
    (t : LatencyStats) × (record_all no_samples (40 ∷ 10 ∷ 25 ∷ []) ≡ some t)
    × IsSummary t 3 (least 40 (10 ∷ 25 ∷ [])) (greatest 40 (10 ∷ 25 ∷ [])) (sum (40 ∷ 10 ∷ 25 ∷ []))
record_all-IsSummary_example = record_all-IsSummary 40 (10 ∷ 25 ∷ []) (omega arith) (omega arith)

abbrev calls : List Op
calls = Op.collected 10 true ∷ Op.collected 30 false ∷ Op.routed true 64 12 ∷ Op.sampled 99 ∷ []

run-IsConserved_example : (t : State) × (run calls (init 7) ≡ some t) × IsConserved t
run-IsConserved_example = run-IsConserved calls 7 (omega arith)
