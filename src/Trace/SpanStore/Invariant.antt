-- ===== src/Trace/SpanStore/Invariant.antt =====
-- A store stays well formed under every operation, and none of them panics.
use opencensus_go.Trace.{SpanData}
use opencensus_go.Trace.Bucket.{Bucket, make_bucket, add, resize}
use opencensus_go.Trace.Bucket.Laws.{make_bucket-IsValid, contents-add}
use opencensus_go.Trace.Bucket.Laws
use opencensus_go.Trace.Bucket.Resize.{contents-resize}
use opencensus_go.Trace.Bucket.Kept.{Only, make_bucket-Only, add-Only, resize-Only}
use opencensus_go.Trace.Bucket.Packed.{
  IsPacked, make_bucket-IsPacked, add-IsPacked, resize-IsPacked,
}
use opencensus_go.Trace.Bucket.Latency.{latency_bucket}
use opencensus_go.Trace.SpanStore.{
  SpanStore, new_span_store, add_at, finished, resize_latency, resize_errors, resize_store,
  latency_of,
}
use opencensus_go.Prelude.{
  ℕ, zero, suc, ◌+◌, ◌≡◌, refl, ap, ◌∙◌, List, [], ◌∷◌, Option, none, some, ℤ, pos, int_eq, nat_eq,
  ◌==◌, length, replicate, length-replicate, All, lookup, IsMap, insert-IsMap, Option-cases,
  Bool-cases, inl, inr, arith, false, All-insert, All-lookup,
}

-- A usable bucket with a number of places, whose spans are all of one kind and stand in its first
-- places.
abbrev pub Keeps : (SpanData → Type 0) → ℕ → Bucket → Type 0
Keeps P places b = Laws.IsValid b × (length b.buffer ≡ places) × Only P b × IsPacked b

-- The spans of the `i`-th latency bucket: they ended without an error, in its range of latencies.
abbrev pub InRange : ℕ → SpanData → Type 0
InRange i sd = (sd.status.code ≡ pos 0) × (latency_bucket (latency_of sd) ≡ i)

abbrev pub Latencies : ℕ → ℕ → List Bucket → Type 0
Latencies places i [] = Unit {0}
Latencies places i (b ∷ bs) = Keeps (InRange i) places b × Latencies places (i + 1) bs

-- The spans of an error bucket ended with its code, which is not 0.
abbrev pub WithCode : ℤ → SpanData → Type 0
WithCode code sd = (sd.status.code ≡ code) × ((code == pos 0) ≡ false)

abbrev pub Failed : ℕ → ℤ × Bucket → Type 0
Failed places e = Keeps (WithCode e.0) places e.1

-- A well-formed store: nine latency buckets of the same size and at most one error bucket for a
-- code, of the store's size for error buckets, each of which holds only spans that belong there.
pub record IsValid (places : ℕ) (s : SpanStore) : Type 0 where
  pub ranges : length s.latency ≡ 9
  pub latency_valid : Latencies places 0 s.latency
  pub errors_valid : All (Failed s.max_spans_per_error_bucket) s.errors
  pub one_bucket : IsMap s.errors

module _ (P : SpanData → Type 0) (places : ℕ) where
  make_bucket-Keeps : Keeps P places (make_bucket places)
  make_bucket-Keeps =
      let made : length (make_bucket places).buffer ≡ places =
        unfold make_bucket in length-replicate {A = Option SpanData} places none in
      ((make_bucket-IsValid places).0, made, make_bucket-Only P places, make_bucket-IsPacked places)

  add-Keeps : (b : Bucket) (sd : SpanData) → Keeps P places b → P sd → Keeps P places (add b sd)
  add-Keeps b sd h p =
      let kept = contents-add b sd h.0 in
      (kept.1, kept.2 ∙ h.1, add-Only P b sd h.2 p, add-IsPacked b sd h.0 h.3)

  resize-Keeps :
      (b : Bucket) (n : ℕ)
      → Keeps P places b
      → (b' : Bucket) × (resize b n ≡ some b') × Keeps P n b'
  resize-Keeps b n h =
      let (b', run, same, valid, size) = contents-resize b n h.0 in
      (b', run, (valid, size, resize-Only P b b' n h.2 run, resize-IsPacked b b' n h.0 h.3 run))

add_at-Latencies :
    (places i j : ℕ) (bs : List Bucket) (sd : SpanData)
    → Latencies places i bs
    → InRange (i + j) sd
    → Latencies places i (add_at bs j sd)
unfolding add_at
add_at-Latencies places i j [] sd h p = tt
add_at-Latencies places i zero (b ∷ bs) sd h p =
    let here : InRange i sd = (p.0, omega (arith, p.1)) in
    (add-Keeps (InRange i) places b sd h.0 here, h.1)
add_at-Latencies places i (suc j) (b ∷ bs) sd h p =
    (h.0, add_at-Latencies places (i + 1) j bs sd h.1 (p.0, omega (arith, p.1)))

length-add_at : (bs : List Bucket) (j : ℕ) (sd : SpanData) → length (add_at bs j sd) ≡ length bs
unfolding add_at
length-add_at [] j sd = refl
length-add_at (b ∷ bs) zero sd = refl
length-add_at (b ∷ bs) (suc j) sd = ap suc (length-add_at bs j sd)

fresh-Latencies : (places i n : ℕ) → Latencies places i (replicate n (make_bucket places))
fresh-Latencies places i zero = tt
fresh-Latencies places i (suc n) =
    (make_bucket-Keeps (InRange i) places, fresh-Latencies places (i + 1) n)

resize_latency_lem :
    (places i n : ℕ) (bs : List Bucket)
    → Latencies places i bs
    → (bs' : List Bucket) × (resize_latency bs n ≡ some bs')
      × Latencies n i bs'
      × (length bs' ≡ length bs)
unfolding resize_latency
resize_latency_lem places i n [] h = ([], refl, tt, refl)
resize_latency_lem places i n (b ∷ bs) h =
    let (b', run, kept) = resize-Keeps (InRange i) places b n h.0 in
    let (bs', runs, all, size) = resize_latency_lem places (i + 1) n bs h.1 in
    (b' ∷ bs', rw (run, runs, resize_latency) refl, (kept, all), ap suc size)

resize_errors_lem :
    (places n : ℕ) (bs : List (ℤ × Bucket))
    → All (Failed places) bs
    → IsMap bs
    → (bs' : List (ℤ × Bucket)) × (resize_errors bs n ≡ some bs')
      × All (Failed n) bs'
      × IsMap bs'
      × ((code : ℤ) → lookup code bs ≡ none → lookup code bs' ≡ none)
unfolding resize_errors
resize_errors_lem places n [] h m = ([], refl, tt, tt, λ code no. refl)
resize_errors_lem places n ((code, b) ∷ bs) h m =
    let (b', run, kept) = resize-Keeps (WithCode code) places b n h.0 in
    let (bs', runs, all, distinct, absent) = resize_errors_lem places n bs h.1 m.1 in
    (
      (code, b') ∷ bs',
      rw (run, runs, resize_errors) refl,
      (kept, all),
      (absent code m.0, distinct),
      λ other no. ground (arith, absent other),
    )

-- A new store is well formed.
pub new_span_store-IsValid : (m n : ℕ) → IsValid m (new_span_store m n)
unfolding new_span_store
new_span_store-IsValid m n = record {
  ranges = refl;
  latency_valid = fresh-Latencies m 0 9;
  errors_valid = tt;
  one_bucket = tt;
}

-- The end of a span keeps the store well formed: the span goes into the bucket of its latency or
-- of its error code, or into none.
pub finished-IsValid :
    (places : ℕ) (s : SpanStore) (span : ℕ) (sd : SpanData)
    → IsValid places s
    → IsValid places (finished s span sd)
unfolding finished
finished-IsValid places s span sd v =
    let size = s.max_spans_per_error_bucket in
    let failed : ℤ × Bucket → Type 0 = Failed size in
    let fresh = make_bucket size in
    elim (Bool-cases (sd.status.code == pos 0)) [
      | inl e ↦ rw e (record {
        ranges = length-add_at s.latency (latency_bucket (latency_of sd)) sd ∙ v.ranges;
        latency_valid =
            add_at-Latencies places 0 (latency_bucket (latency_of sd)) s.latency sd v.latency_valid
              ((int_eq.beq_iff sd.status.code (pos 0)).0 e, omega arith);
        errors_valid = v.errors_valid;
        one_bucket = v.one_bucket;
      })
      | inr e ↦ elim (Option-cases (lookup sd.status.code s.errors)) [
        | inl new ↦
            rw (e, new)
              (record {
                ranges = v.ranges;
                latency_valid = v.latency_valid;
                errors_valid =
                    All-insert failed sd.status.code (add fresh sd) s.errors v.errors_valid (
                      add-Keeps (WithCode sd.status.code) size fresh sd
                        (make_bucket-Keeps (WithCode sd.status.code) size) (refl, e));
                one_bucket = insert-IsMap sd.status.code (add fresh sd) s.errors v.one_bucket;
              })
        | inr (b, old) ↦
            rw (e, old)
              (record {
                ranges = v.ranges;
                latency_valid = v.latency_valid;
                errors_valid = All-insert failed sd.status.code (add b sd) s.errors v.errors_valid (
                    add-Keeps (WithCode sd.status.code) size b sd
                      (All-lookup failed sd.status.code b s.errors v.errors_valid old) (refl, e));
                one_bucket = insert-IsMap sd.status.code (add b sd) s.errors v.one_bucket;
              })
      ]
    ]

-- A change of the sizes never panics. The store stays well formed, at its new sizes.
pub resize_store-IsValid :
    (places m n : ℕ) (s : SpanStore)
    → IsValid places s
    → (s' : SpanStore) × (resize_store s m n ≡ some s')
      × IsValid m s'
      × (s'.max_spans_per_error_bucket ≡ n)
      × (s'.active ≡ s.active)
unfolding resize_store
resize_store-IsValid places m n s v =
    let (ls, run, all, size) = resize_latency_lem places 0 m s.latency v.latency_valid in
    let (es, runs, failed, distinct, absent) =
      resize_errors_lem s.max_spans_per_error_bucket n s.errors v.errors_valid v.one_bucket in
    (
      record s { latency = ls; errors = es; max_spans_per_error_bucket = n },
      rw (run, runs, resize_store) refl,
      record {
        ranges = size ∙ v.ranges;
        latency_valid = all;
        errors_valid = failed;
        one_bucket = distinct;
      },
      refl,
      refl,
    )
