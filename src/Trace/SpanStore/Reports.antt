-- ===== src/Trace/SpanStore/Reports.antt =====
-- The reports of a store: `reportSpansByError` and `ReportSpansByLatency`.
use opencensus_go.Trace.{SpanData}
use opencensus_go.Trace.Bucket.{Bucket, size}
use opencensus_go.Trace.Bucket.Packed.{Packed}
use opencensus_go.Trace.SpanStore.{
  SpanStore, until_nil, all_errors, report_spans_by_error, duration_of,
}
use opencensus_go.Trace.SpanStore.Spans.{stored, until_nil_lem, weaker_buffer, weaker_spans}
use opencensus_go.Trace.SpanStore.Invariant.{IsValid, WithCode, Failed}
use opencensus_go.Prelude.{
  ℕ, ◌≡◌, List, [], ◌∷◌, ◌++◌, ℤ, pos, true, int_eq, nat_eq, ◌==◌, All, All-append, lookup,
  Option-cases, Bool-cases, inl, inr, Bool, false, All-lookup, leb, ◌&&◌, ◌||◌, negsuc,
}

-- All spans of the latency buckets, in the order of the buckets.
abbrev pub all_latencies : List Bucket → List SpanData
all_latencies [] = []
all_latencies (b ∷ bs) = stored b.buffer ++ all_latencies bs

-- a ≤ b
abbrev pub at_most : ℤ → ℤ → Bool
at_most (pos a) (pos b) = leb a b
at_most (pos a) (negsuc b) = false
at_most (negsuc a) (pos b) = true
at_most (negsuc a) (negsuc b) = leb b a

-- What the requested range stands for: all spans, if neither bound is given, else the durations from
-- the minimum to the maximum, both included, where a maximum of 0 is none. No span has a duration
-- below a maximum that is negative.
abbrev pub asked : ℤ → ℤ → SpanData → Bool
asked lo (negsuc n) sd = false
asked lo (pos hi) sd =
    lo == pos 0 && hi == 0
    || at_most lo (duration_of sd) && (hi == 0 || at_most (duration_of sd) (pos hi))

all_errors_lem :
    (size : ℕ) (bs : List (ℤ × Bucket))
    → All (Failed size) bs
    → All (λ sd. (sd.status.code == pos 0) ≡ false) (all_errors bs)
unfolding all_errors
all_errors_lem size [] h = tt
all_errors_lem size ((code, b) ∷ bs) h =
    All-append (λ sd. (sd.status.code == pos 0) ≡ false) (until_nil b.buffer) (all_errors bs)
      (until_nil_lem (λ sd. (sd.status.code == pos 0) ≡ false) b.buffer
        (weaker_buffer b.buffer h.0.2 (λ sd k. rw k.0 k.1)))
      (all_errors_lem size bs h.1)

-- In a well-formed store the report by error holds failed spans only, and if a code other than 0
-- is asked for, spans of that code only.
pub report_spans_by_error-code :
    (places : ℕ) (s : SpanStore) (code : ℤ)
    → IsValid places s
    → All
        (λ sd.
          ((sd.status.code == pos 0) ≡ false) × ((code == pos 0) ≡ false → sd.status.code ≡ code))
        (report_spans_by_error s code)
unfolding report_spans_by_error
report_spans_by_error-code places s code v = elim (Bool-cases (code == pos 0)) [
  | inl e ↦ rw e (
      weaker_spans (all_errors s.errors)
        (all_errors_lem s.max_spans_per_error_bucket s.errors v.errors_valid)
        (λ sd h. (h, λ no. cc)))
  | inr e ↦ elim (Option-cases (lookup code s.errors)) [
    | inl new ↦ rw (e, new) tt
    | inr (b, old) ↦
        let kept =
          All-lookup (Failed s.max_spans_per_error_bucket) code b s.errors v.errors_valid old in
        rw (e, old)
          (weaker_spans (until_nil b.buffer) (until_nil_lem (WithCode code) b.buffer kept.2)
            (λ sd h. (rw h.0 h.1, λ no. h.0)))
  ]
]
