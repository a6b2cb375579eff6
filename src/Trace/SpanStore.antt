-- ===== src/Trace/SpanStore.antt =====
-- trace/spanstore.go: the spans kept for a span name, and the stores of all names.
-- A span is known by a number (its pointer). The locks are left out: each function is one critical
-- section.
pub mod Invariant
pub mod Spans
pub mod Reports
pub mod Names
pub mod Summary
mod Examples
use opencensus_go.Trace.{SpanData}
use opencensus_go.Trace.Bucket.{Bucket, make_bucket, add, resize}
use opencensus_go.Trace.Bucket.Latency.{default_latencies, latency_bucket, latency_bucket_bounds}
use opencensus_go.Prelude.{
  ℕ, zero, suc, ◌+◌, ◌-◌, List, [], ◌∷◌, ◌++◌, Bool, true, false, not, ◌&&◌, ◌||◌, Option, none,
  some, ltb, leb, ◌==◌, nat_eq, int_eq, bytes_eq, Bytes, ℤ, pos, negsuc, int_ltb, int_sub,
  if◌then◌else◌, length, replicate, lookup, insert, erase,
}

pub record SpanStore : Type 0 where
  pub active : List (ℕ × Unit {0})
  pub errors : List (ℤ × Bucket)
  pub latency : List Bucket
  pub max_spans_per_error_bucket : ℕ

unfoldable pub new_span_store : ℕ → ℕ → SpanStore
unfolding make_bucket
new_span_store latency_bucket_size error_bucket_size = record {
  active = [];
  errors = [];
  latency = replicate (length default_latencies + 1) (make_bucket latency_bucket_size);
  max_spans_per_error_bucket = error_bucket_size;
}

unfoldable pub add_active : SpanStore → ℕ → SpanStore
add_active s span = record s { active = insert span tt s.active }

-- `s.latency[i].add(sd)`; the index of a latency lies in the slice of nine buckets.
unfoldable pub add_at : List Bucket → ℕ → SpanData → List Bucket
add_at [] i sd = []
add_at (b ∷ bs) zero sd = add b sd ∷ bs
add_at (b ∷ bs) (suc i) sd = b ∷ add_at bs i sd

-- `EndTime.Sub(StartTime)`, where a negative one counts as 0.
abbrev pub latency_of : SpanData → ℕ
latency_of sd = sd.end_time - sd.start_time

unfoldable pub finished : SpanStore → ℕ → SpanData → SpanStore
unfolding add_at add make_bucket latency_bucket
finished s span sd =
    let rest = record s { active = erase span s.active } in
    let code = sd.status.code in
    if code == pos 0
    then record rest { latency = add_at s.latency (latency_bucket (latency_of sd)) sd }
    else elim (lookup code s.errors) [
      | some b ↦ record rest { errors = insert code (add b sd) s.errors }
      | none ↦ record rest {
        errors = insert code (add (make_bucket s.max_spans_per_error_bucket) sd) s.errors;
      }
    ]

resize_latency : List Bucket → ℕ → Option (List Bucket)
resize_latency [] n = some []
resize_latency (b ∷ bs) n = elim (resize b n) [
  | none ↦ none
  | some b' ↦ elim (resize_latency bs n) [ none ↦ none | some bs' ↦ some (b' ∷ bs') ]
]

resize_errors : List (ℤ × Bucket) → ℕ → Option (List (ℤ × Bucket))
resize_errors [] n = some []
resize_errors ((code, b) ∷ bs) n = elim (resize b n) [
  | none ↦ none
  | some b' ↦ elim (resize_errors bs n) [ none ↦ none | some bs' ↦ some ((code, b') ∷ bs') ]
]

-- `none` is a panic.
unfoldable pub resize_store : SpanStore → ℕ → ℕ → Option SpanStore
unfolding resize_latency resize_errors
resize_store s latency_bucket_size error_bucket_size =
    elim (resize_latency s.latency latency_bucket_size) [
      | none ↦ none
      | some latency ↦ elim (resize_errors s.errors error_bucket_size) [
        | none ↦ none
        | some errors ↦ some (record s {
          latency = latency;
          errors = errors;
          max_spans_per_error_bucket = error_bucket_size;
        })
      ]
    ]

abbrev pub max_bucket_size : ℕ
max_bucket_size = 100_000

abbrev pub default_bucket_size : ℕ
default_bucket_size = 10

-- The limits that `ConfigureBucketSizes` puts on a requested size.
unfoldable pub clamp_size : ℤ → ℕ
clamp_size (negsuc n) = 0
clamp_size (pos n) = if ltb max_bucket_size n then max_bucket_size else n

abbrev pub SpanStores : Type 0
SpanStores = List (Bytes × SpanStore)

unfoldable pub span_store_for_name_create_if_new : SpanStores → Bytes → SpanStores × SpanStore
span_store_for_name_create_if_new stores name = elim (lookup name stores) [
  | some s ↦ (stores, s)
  | none ↦
      let s = new_span_store default_bucket_size default_bucket_size in (insert name s stores, s)
]

unfoldable pub span_store_set_size : SpanStores → Bytes → ℕ → ℕ → Option SpanStores
unfolding resize_store new_span_store
span_store_set_size stores name latency_size error_size = elim (lookup name stores) [
  | some s ↦ elim (resize_store s latency_size error_size) [
    | none ↦ none
    | some s' ↦ some (insert name s' stores)
  ]
  | none ↦ some (insert name (new_span_store latency_size error_size) stores)
]

pub record BucketConfiguration : Type 0 where
  pub name : Bytes
  pub max_requests_succeeded : ℤ
  pub max_requests_errors : ℤ

pub configure_bucket_sizes : SpanStores → List BucketConfiguration → Option SpanStores
unfolding span_store_set_size clamp_size
configure_bucket_sizes stores [] = some stores
configure_bucket_sizes stores (bc ∷ bcs) =
    elim (span_store_set_size stores bc.name (clamp_size bc.max_requests_succeeded)
      (clamp_size bc.max_requests_errors)) [
        | none ↦ none
        | some stores' ↦ configure_bucket_sizes stores' bcs
      ]

-- The spans of a buffer up to its first nil.
unfoldable pub until_nil : List (Option SpanData) → List SpanData
until_nil [] = []
until_nil (none ∷ buffer) = []
until_nil (some sd ∷ buffer) = sd ∷ until_nil buffer

all_errors : List (ℤ × Bucket) → List SpanData
all_errors [] = []
all_errors ((code, b) ∷ bs) = until_nil b.buffer ++ all_errors bs

unfoldable pub report_spans_by_error : SpanStore → ℤ → List SpanData
unfolding until_nil all_errors
report_spans_by_error s code =
    if not (code == pos 0)
    then elim (lookup code s.errors) [ none ↦ [] | some b ↦ until_nil b.buffer ]
    else all_errors s.errors

-- `EndTime.Sub(StartTime)`
abbrev pub duration_of : SpanData → ℤ
duration_of sd = int_sub sd.end_time sd.start_time

-- The test of one span against the requested range; a maximum of 0 is none.
unfoldable pub in_range : ℤ → ℤ → SpanData → Bool
in_range min_latency max_latency sd =
    if not (min_latency == pos 0) || not (max_latency == pos 0)
    then (if int_ltb (duration_of sd) min_latency
        then false
        else not (not (max_latency == pos 0) && int_ltb max_latency (duration_of sd)))
    else true

pub filter_spans : (SpanData → Bool) → List SpanData → List SpanData
filter_spans p [] = []
filter_spans p (sd ∷ sds) = let rest = filter_spans p sds in if p sd then sd ∷ rest else rest

-- The loop over the buckets from the `i`-th on; `n` is the number of buckets.
report_from : ℕ → ℕ → ℤ → ℤ → List Bucket → List SpanData
unfolding latency_bucket_bounds in_range until_nil filter_spans
report_from n i min_latency max_latency [] = []
report_from n i min_latency max_latency (b ∷ bs) =
    let rest = report_from n (i + 1) min_latency max_latency bs in
    let bounds = latency_bucket_bounds i in
    if not (i + 1 == n) && not (int_ltb min_latency (pos bounds.1))
    then rest
    else if not (max_latency == pos 0) && int_ltb max_latency (pos bounds.0)
    then rest
    else filter_spans (in_range min_latency max_latency) (until_nil b.buffer) ++ rest

unfoldable pub report_spans_by_latency : SpanStore → ℤ → ℤ → List SpanData
unfolding report_from
report_spans_by_latency s min_latency max_latency =
    report_from (length s.latency) 0 min_latency max_latency s.latency
