-- ===== src/Trace/SpanStore/Summary.antt =====
-- trace/spanstore.go: the summary of the spans that are kept for each name.
use opencensus_go.Trace.Bucket.{Bucket, size}
use opencensus_go.Trace.Bucket.Latency.{latency_bucket_bounds}
use opencensus_go.Trace.SpanStore.{SpanStore, SpanStores}
use opencensus_go.Prelude.{ℕ, suc, Bytes, ℤ, List, [], ◌∷◌, length}

pub record LatencyBucketSummary : Type 0 where
  pub min_latency : ℕ
  pub max_latency : ℕ
  pub size_of : ℕ

pub record ErrorBucketSummary : Type 0 where
  pub error_code : ℤ
  pub size_of : ℕ

pub record PerMethodSummary : Type 0 where
  pub active : ℕ
  pub latency_buckets : List LatencyBucketSummary
  pub error_buckets : List ErrorBucketSummary

-- The loop over the errors.
unfoldable pub error_summaries : List (ℤ × Bucket) → List ErrorBucketSummary
unfolding size
error_summaries [] = []
error_summaries ((code, b) ∷ errors) =
    record { error_code = code; size_of = size b } ∷ error_summaries errors

-- The loop over the latencies, from the bucket `i` on.
unfoldable pub latency_summaries : ℕ → List Bucket → List LatencyBucketSummary
unfolding size latency_bucket_bounds
latency_summaries i [] = []
latency_summaries i (b ∷ latency) =
    let (min, max) = latency_bucket_bounds i in
    record { min_latency = min; max_latency = max; size_of = size b }
    ∷ latency_summaries (suc i) latency

unfoldable pub summary_of : SpanStore → PerMethodSummary
unfolding error_summaries latency_summaries
summary_of s = record {
  active = length s.active;
  latency_buckets = latency_summaries 0 s.latency;
  error_buckets = error_summaries s.errors;
}

unfoldable pub report_spans_per_method : SpanStores → List (Bytes × PerMethodSummary)
unfolding summary_of
report_spans_per_method [] = []
report_spans_per_method ((name, s) ∷ stores) = (name, summary_of s) ∷ report_spans_per_method stores
