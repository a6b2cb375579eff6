-- ===== src/Stats/AggregationData/Extremes.antt =====
-- The largest value that a distribution reports.
use opencensus_go.Floats.{Floats}
use opencensus_go.Metric.{int64_add}
use opencensus_go.Stats.Aggregation.{Aggregation}
use opencensus_go.Stats.AggregationData.{
  Sample, DistributionData, new_distribution_data, bucket_index, add_to_bucket, get_exemplar,
  update_mean, add_to_distribution,
}
use opencensus_go.Stats.AggregationData.Counts.{
  Log, add_log, IsSorted, IsTransitive, add_log-IsHistogram,
}
use opencensus_go.Prelude.{
  ℕ, ◌^◌, ◌≡◌, ◌<◌, refl, ◌∙◌, false, [], ◌∷◌, ◌==◌, nat_eq, some, length, get_elem?, All,
  if◌then◌else◌, Bool-cases, Option-cases, inl, inr,
}

module _ {F : Type 0} (floats : Floats F) where
  add_to_bucket-max :
      (a : DistributionData F) (s : Sample F) (t : ℕ) (a' : DistributionData F)
      → add_to_bucket floats a s t ≡ some a'
      → a'.max ≡ a.max
  unfolding add_to_bucket
  add_to_bucket-max a s t a' h =
      let i = bucket_index floats a.bounds s.value in
      elim (Option-cases (get_elem? a.count_per_bucket i)) [
        | inl e ↦ absurd (let no = rw (e, add_to_bucket) at h in cc)
        | inr (n, e) ↦ elim (Option-cases (get_exemplar s t)) [
          | inl f ↦ let same = rw (e, f, add_to_bucket) at h in cc
          | inr (x, f) ↦ elim (Option-cases (get_elem? a.exemplars_per_bucket i)) [
            | inl g ↦ absurd (let no = rw (e, f, g, add_to_bucket) at h in cc)
            | inr (old, g) ↦ let same = rw (e, f, g, add_to_bucket) at h in cc
          ]
        ]
      ]

  update_mean-max : (a : DistributionData F) (v : F) → (update_mean floats a v).max ≡ a.max
  unfolding update_mean
  update_mean-max a v = elim (Bool-cases (a.count == 1)) [
    | inl e ↦ rw (update_mean, e) refl
    | inr e ↦ rw (update_mean, e) refl
  ]

  -- A value that is not above the maximum leaves it.
  add_to_distribution-max :
      (a : DistributionData F) (s : Sample F) (t : ℕ) (a' : DistributionData F)
      → floats.less a.max s.value ≡ false
      → add_to_distribution floats a s t ≡ some a'
      → a'.max ≡ a.max
  unfolding add_to_distribution
  add_to_distribution-max a s t a' low h =
      let v = s.value in
      let seen = record a {
        min = if floats.less v a.min then v else a.min;
        max = if floats.less a.max v then v else a.max;
        count = int64_add a.count 1;
      } in
      let kept : seen.max ≡ a.max = rw low refl in
      elim (Option-cases (add_to_bucket floats seen s t)) [
        | inl e ↦ absurd (let no = rw (e, add_to_distribution) at h in cc)
        | inr (mid, e) ↦
            let same = rw (e, add_to_distribution) at h in
            let eq : update_mean floats mid v ≡ a' = cc in
            rw (← eq) (update_mean-max mid v ∙ add_to_bucket-max seen s t mid e ∙ kept)
      ]

  abbrev pub IsLow : Sample F × ℕ → Type 0
  IsLow e = floats.less floats.smallest_nonzero e.0.value ≡ false

  add_log-max :
      (agg : Aggregation F) (t : ℕ) (log : Log F) (a : DistributionData F)
      → All IsLow log
      → add_log floats (new_distribution_data floats agg t) log ≡ some a
      → a.max ≡ floats.smallest_nonzero
  unfolding add_log new_distribution_data
  add_log-max agg t [] a low h = cc
  add_log-max agg t (e ∷ log) a low h =
      elim (Option-cases (add_log floats (new_distribution_data floats agg t) log)) [
        | inl f ↦ absurd (let no = rw (f, add_log) at h in cc)
        | inr (mid, f) ↦
            let step = rw (f, add_log) at h in
            let before = add_log-max agg t log mid low.1 f in
            add_to_distribution-max mid e.0 e.1 a (rw before low.0) step ∙ before
      ]

  -- Over bounds that are sorted by a transitive order, let there be fewer than 2 ^ 63 samples, none
  -- of them above the least positive number, as with samples that are all negative or zero. Then the
  -- data report that least positive number as their largest value, which no sample need have.
  pub add_log-max_low :
      IsTransitive floats
      → (agg : Aggregation F) → IsSorted floats agg.buckets
      → (t : ℕ) (log : Log F) → length log < 2 ^ 63
      → All IsLow log
      → (a : DistributionData F) × (add_log floats (new_distribution_data floats agg t) log
          ≡ some a)
        × (a.count ≡ length log)
        × (a.max ≡ floats.smallest_nonzero)
  add_log-max_low trans agg sorted t log few low =
      let (a, run, h) = add_log-IsHistogram floats trans agg sorted t log few in
      (a, run, h.counts_all, add_log-max agg t log a low run)
