-- ===== src/Trace/Bucket/Latency.antt =====
-- The latency ranges: `latencyBucket` and `latencyBucketBounds`, durations in nanoseconds.
use opencensus_go.Prelude.{
  ℕ, ◌-◌, ◌^◌, ◌≤◌, ◌<◌, List, [], ◌∷◌, none, some, arith, leb, ◌==◌, nat_eq, if◌then◌else◌, length,
  get_elem?, suc,
}

abbrev pub default_latencies : List ℕ
default_latencies =
    10_000 ∷ 100_000 ∷ 1_000_000 ∷ 10_000_000 ∷ 100_000_000 ∷ 1_000_000_000 ∷ 10_000_000_000
    ∷ 60_000_000_000 ∷ []

-- The loop passes the bounds that the latency reaches.
unfoldable pub passed : ℕ → List ℕ → ℕ
passed latency [] = 0
passed latency (bound ∷ bounds) = if leb bound latency then suc (passed latency bounds) else 0

unfoldable pub latency_bucket : ℕ → ℕ
unfolding passed
latency_bucket latency = passed latency default_latencies

bound_at : ℕ → ℕ
bound_at i = elim (get_elem? default_latencies i) [ none ↦ 0 | some b ↦ b ]

-- The bounds of a range; for an index beyond the last range the code panics.
unfoldable pub latency_bucket_bounds : ℕ → ℕ × ℕ
unfolding bound_at
latency_bucket_bounds index =
    if index == 0
    then (0, bound_at index)
    else if index == length default_latencies
    then (bound_at (index - 1), 2 ^ 63 - 1)
    else (bound_at (index - 1), bound_at index)

-- A latency lies in the range of its bucket: not below its lower bound, and below its upper one
-- but in the last bucket.
pub latency_bucket_bounds_lem :
    (latency : ℕ)
    → let index = latency_bucket latency in
      (index ≤ 8)
      × ((latency_bucket_bounds index).0 ≤ latency)
      × (index < 8 → latency < (latency_bucket_bounds index).1)
unfolding latency_bucket latency_bucket_bounds
latency_bucket_bounds_lem latency = ground arith
