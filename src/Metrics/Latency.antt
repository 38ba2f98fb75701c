-- ===== src/Metrics/Latency.antt =====
-- latency_record over any run of samples: least, greatest and mean.
use study_c.Prelude.{
  ℕ, suc, ◌+◌, ◌-◌, ◌*◌, ◌/◌, ◌^◌, ◌≤◌, ◌<◌, ◌≡◌, refl, min, max, Option, none, some, List, [], ◌∷◌,
  arith, length,
}
use native.Mathlib.Nat.{le-div_iff_mul-le, mul-le-mul_right, div-le_of_le-mul, div-mul-le_self}
use study_c.Metrics.{LatencyStats, no_samples, latency_record, u32, u64, widen}

mean_bounds :
    (a n x lo hi : ℕ)
    → lo ≤ a
    → a ≤ hi
    → lo ≤ x
    → x ≤ hi
    → (lo ≤ (a * n + x) / (n + 1))
      × ((a * n + x) / (n + 1) ≤ hi)
      × ((a * n + x) / (n + 1) * (n + 1) ≤ a * n + x)
mean_bounds a n x lo hi p q p' q' = (
  (le-div_iff_mul-le {k = n + 1} (omega arith)).1 (omega (arith, mul-le-mul_right n p)),
  div-le_of_le-mul (n + 1) (omega (arith, mul-le-mul_right n q)),
  div-mul-le_self (a * n + x) (n + 1),
)

-- What the statistics say of the samples: their number, least and greatest, and a mean that lies
-- between these and is never rounded up past the true one.
pub record IsSummary (s : LatencyStats) (count least greatest sum : ℕ) : Type 0 where
  pub counted : s.sample_count ≡ count
  pub least_kept : s.min_us ≡ least
  pub greatest_kept : s.max_us ≡ greatest
  pub above : least ≤ s.avg_us
  pub below : s.avg_us ≤ greatest
  pub mean : s.avg_us * count ≤ sum

recorded : LatencyStats → ℕ → LatencyStats
recorded s x = record (widen s x) {
  avg_us = (s.avg_us * s.sample_count + x) / (s.sample_count + 1);
  sample_count = s.sample_count + 1;
}

latency_record-recorded :
    (s : LatencyStats) (x : ℕ)
    → s.avg_us * s.sample_count + x < 2 ^ 64
    → s.sample_count + 1 < 2 ^ 32
    → latency_record s x ≡ some (recorded s x)
unfolding latency_record recorded
latency_record-recorded s x h k =
    let e1 : u64 (u64 (s.avg_us * s.sample_count) + x) ≡ s.avg_us * s.sample_count + x =
      omega arith in
    let e2 : u32 (s.sample_count + 1) ≡ s.sample_count + 1 = omega arith in
    rw (e1, e2) (ground arith)

recorded-first : (x : ℕ) → IsSummary (recorded no_samples x) 1 x x x
unfolding recorded
recorded-first x = record {
  counted = refl;
  least_kept = refl;
  greatest_kept = refl;
  above = omega arith;
  below = omega arith;
  mean = omega arith;
}

recorded-IsSummary :
    (s : LatencyStats) (n lo hi sum x : ℕ)
    → IsSummary s (suc n) lo hi sum
    → IsSummary (recorded s x) (suc (suc n)) (min lo x) (max hi x) (sum + x)
unfolding recorded
recorded-IsSummary s n lo hi sum x v =
    let b =
      mean_bounds s.avg_us (suc n) x (min lo x) (max hi x) (omega (arith, v.above))
        (omega (arith, v.below)) (omega arith) (omega arith) in
    record {
      counted = omega (arith, v.counted);
      least_kept = ground (arith, v.counted, v.least_kept);
      greatest_kept = ground (arith, v.counted, v.greatest_kept);
      above = simp v.counted (b.0);
      below = simp v.counted (b.1);
      mean = simp v.counted (omega (arith, b.2, v.mean));
    }

-- Calls of latency_record, one for each sample.
unfoldable pub record_all : LatencyStats → List ℕ → Option LatencyStats
record_all s [] = some s
record_all s (x ∷ xs) = elim (latency_record s x) [ none ↦ none | some s' ↦ record_all s' xs ]

abbrev pub sum : List ℕ → ℕ
sum [] = 0
sum (x ∷ xs) = x + sum xs

abbrev pub least : ℕ → List ℕ → ℕ
least lo [] = lo
least lo (x ∷ xs) = least (min lo x) xs

abbrev pub greatest : ℕ → List ℕ → ℕ
greatest hi [] = hi
greatest hi (x ∷ xs) = greatest (max hi x) xs

record_all_from :
    (xs : List ℕ) (s : LatencyStats) (n lo hi total : ℕ)
    → IsSummary s (suc n) lo hi total
    → total + sum xs < 2 ^ 64
    → suc n + length xs < 2 ^ 32
    → (t : LatencyStats) × (record_all s xs ≡ some t)
      × IsSummary t (suc n + length xs) (least lo xs) (greatest hi xs) (total + sum xs)
unfolding record_all
record_all_from [] s n lo hi total v h k =
    let e1 : suc n + 0 ≡ suc n = omega arith in
    let e2 : total + 0 ≡ total = omega arith in (s, refl, rw (e1, e2) v)
record_all_from (x ∷ xs) s n lo hi total v h k =
    let bound : s.avg_us * s.sample_count ≤ total = simp v.counted (v.mean) in
    let e1 : suc n + suc (length xs) ≡ suc (suc n) + length xs = omega arith in
    let e2 : total + (x + sum xs) ≡ total + x + sum xs = omega arith in
    let (t, r, v') =
      record_all_from xs (recorded s x) (suc n) (min lo x) (max hi x) (total + x)
        (recorded-IsSummary s n lo hi total x v) (omega arith) (omega arith) in
    (
      t,
      rw (latency_record-recorded s x (omega arith) (omega (arith, v.counted)), record_all) r,
      rw (e1, e2) v',
    )

-- For a nonempty run of fewer than 2^32 samples whose sum stays below 2^64, latency_record never
-- divides by zero, and the statistics hold the number of samples, their least and greatest, and an
-- average between these two whose product with the count does not exceed the sum.
pub record_all-IsSummary :
    (x : ℕ) (xs : List ℕ)
    → sum (x ∷ xs) < 2 ^ 64
    → length (x ∷ xs) < 2 ^ 32
    → (t : LatencyStats) × (record_all no_samples (x ∷ xs) ≡ some t)
      × IsSummary t (length (x ∷ xs)) (least x xs) (greatest x xs) (sum (x ∷ xs))
unfolding record_all
record_all-IsSummary x xs h k =
    let e1 : suc (length xs) ≡ 1 + length xs = omega arith in
    let (t, r, v) =
      record_all_from xs (recorded no_samples x) 0 x x x (recorded-first x) h (omega arith) in
    (
      t,
      rw (latency_record-recorded no_samples x (omega arith) (omega arith), record_all) r,
      rw e1 v,
    )

-- After 2^32 - 1 samples the next call divides by zero, whatever the sample is.
pub latency_record_overflows :
    (s : LatencyStats) (x : ℕ) → s.sample_count ≡ 2 ^ 32 - 1 → latency_record s x ≡ none
unfolding latency_record
latency_record_overflows s x h = ground arith
