-- ===== src/Stats/ViewToMetric/Types.antt =====
-- The data of a view fit the type of its metric.
use opencensus_go.Floats.{Floats}
use opencensus_go.Metric.{
  int64_add, MetricType, cumulative_int64, cumulative_float64, gauge_int64, gauge_float64,
  cumulative_distribution, int64_point, float64_point, Exemplar, Point,
}
use opencensus_go.Stats.Aggregation.{
  Aggregation, AggType, agg_none, agg_count, agg_sum, agg_distribution, agg_last_value,
}
use opencensus_go.Stats.AggregationData.{
  AggregationData, count_data, sum_data, distribution_data, last_value_data, DistributionData,
  Sample, new_distribution_data, new_data, add_to_distribution, add_sample, bucket_index,
  update_mean, sum_of, to_point,
}
use opencensus_go.Stats.AggregationData.Counts.{
  Log, get_elem?-some, bucket_index_bound, add_to_bucket_lem, update_mean_lem,
}
use opencensus_go.Stats.Measures.{Measure, MeasureKind, int64_kind, float64_kind}
use opencensus_go.Stats.ViewToMetric.{Collected, get_type, aggregator}
use opencensus_go.Stats.ViewToMetric.Points.{is_of_type, Shows, buckets_of_total}
use opencensus_go.Prelude.{
  ℕ, suc, ◌+◌, ◌≡◌, ◌⊎◌, refl, sym, ap, ◌∙◌, List, [], ◌∷◌, Option, none, some, length,
  length-replicate, length-set, inl, inr, if◌then◌else◌, arith, true,
}

MeasureKind-cases : (k : MeasureKind) → (k ≡ int64_kind) ⊎ (k ≡ float64_kind)
MeasureKind-cases int64_kind = inl refl
MeasureKind-cases float64_kind = inr refl

module _ {F : Type 0} where
  -- There is a count and a place for an exemplar for each bucket.
  pub record IsShaped (counts : List ℕ) (bounds : List F) (count : ℕ)
      (exemplars : List (Option (Exemplar F))) : Type 0 where
    pub counts_fit : length counts ≡ suc (length bounds)
    pub exemplars_fit : length exemplars ≡ suc (length bounds)

  abbrev Shaped : DistributionData F → Type 0
  Shaped a = IsShaped a.count_per_bucket a.bounds a.count a.exemplars_per_bucket

  -- The data are of an aggregation of the type.
  data Fits : AggType → AggregationData F → Type 0 where
    fits_count : (start n : ℕ) → Fits agg_count (count_data start n)
    fits_sum : (start : ℕ) (v : F) → Fits agg_sum (sum_data start v)
    fits_distribution :
        (a : DistributionData F) → Shaped a → Fits agg_distribution (distribution_data a)
    fits_last_value : (v : F) → Fits agg_last_value (last_value_data v)

module _ {F : Type 0} (floats : Floats F) where
  add_to_distribution-Shaped :
      (a : DistributionData F) (s : Sample F) (t : ℕ)
      → Shaped a
      → (a' : DistributionData F) × (add_to_distribution floats a s t ≡ some a') × Shaped a'
  unfolding add_to_distribution
  add_to_distribution-Shaped a s t h =
      let v = s.value in
      let seen = record a {
        min = if floats.less v a.min then v else a.min;
        max = if floats.less a.max v then v else a.max;
        count = int64_add a.count 1;
      } in
      let i = bucket_index floats a.bounds v in
      let room = bucket_index_bound floats a.bounds v in
      let (n, here) = get_elem?-some a.count_per_bucket i (rw h.counts_fit room) in
      let (mid, run, (counts, bounds, count, exemplars)) =
        add_to_bucket_lem floats seen s t n here (rw h.exemplars_fit room) in
      let size : suc (length a.bounds) ≡ suc (length mid.bounds) = rw bounds refl in
      (
        update_mean floats mid v,
        rw (add_to_distribution, run) refl,
        update_mean_lem floats (λ cs bs c es. IsShaped cs bs c es) mid v
            (record {
              counts_fit =
                  ap length counts
                  ∙ length-set a.count_per_bucket i (int64_add n 1)
                  ∙ h.counts_fit
                  ∙ size;
              exemplars_fit = exemplars ∙ h.exemplars_fit ∙ size;
            }),
      )

  add_sample-Fits :
      (type : AggType) (d : AggregationData F) (s : Sample F) (t : ℕ)
      → Fits type d
      → (d' : AggregationData F) × (add_sample floats d s t ≡ some d') × Fits type d'
  unfolding add_sample
  add_sample-Fits _ _ s t (fits_count start n) =
      (count_data start (int64_add n 1), refl, fits_count start (int64_add n 1))
  add_sample-Fits _ _ s t (fits_sum start v) =
      (sum_data start (floats.add v s.value), refl, fits_sum start (floats.add v s.value))
  add_sample-Fits _ _ s t (fits_distribution a h) =
      let (a', run, h') = add_to_distribution-Shaped a s t h in
      (distribution_data a', rw (run, add_sample) refl, fits_distribution a' h')
  add_sample-Fits _ _ s t (fits_last_value v) =
      (last_value_data s.value, refl, fits_last_value s.value)

  -- What a collector holds behind the samples of a log, for one row.
  unfoldable pub collect : Aggregation F → ℕ → Log F → Collected F
  unfolding aggregator
  collect agg start [] = (aggregator floats agg).new_data start
  collect agg start (e ∷ log) = (aggregator floats agg).add_sample (collect agg start log) e.0 e.1

  module _ (agg : Aggregation F) (m : Measure) (type : MetricType)
      (typed : get_type m agg ≡ some type) (made : agg.has_new_data ≡ true) where
    new_data-Fits :
        (x : AggType) (t : ℕ)
        → agg.agg_type ≡ x
        → (d : AggregationData F) × (new_data floats agg t ≡ some d) × Fits x d
    unfolding new_data get_type new_distribution_data
    new_data-Fits agg_none t e = absurd (let no = rw (e, get_type) at typed in cc)
    new_data-Fits agg_count t e = (count_data t 0, rw (made, e, new_data) refl, fits_count t 0)
    new_data-Fits agg_sum t e =
        (sum_data t floats.zero, rw (made, e, new_data) refl, fits_sum t floats.zero)
    new_data-Fits agg_distribution t e =
        let a = new_distribution_data floats agg t in
        let one_more : length agg.buckets + 1 ≡ suc (length agg.buckets) = omega arith in
        (
          distribution_data a,
          rw (made, e, new_data) refl,
          fits_distribution a (record {
            counts_fit = length-replicate (length agg.buckets + 1) 0 ∙ one_more;
            exemplars_fit = length-replicate (length agg.buckets + 1) none ∙ one_more;
          }),
        )
    new_data-Fits agg_last_value t e =
        (last_value_data floats.zero, rw (made, e, new_data) refl, fits_last_value floats.zero)

    collect-Fits :
        (start : ℕ) (log : Log F)
        → (d : AggregationData F) × (collect agg start log ≡ some d) × Fits agg.agg_type d
    unfolding collect aggregator
    collect-Fits start [] = new_data-Fits agg.agg_type start refl
    collect-Fits start (e ∷ log) =
        let (d, run, h) = collect-Fits start log in
        let (d', next, h') = add_sample-Fits agg.agg_type d e.0 e.1 h in
        (d', rw (run, collect) next, h')

    to_point-Fits :
        (x : AggType) (d : AggregationData F) (now : ℕ)
        → agg.agg_type ≡ x
        → Fits x d
        → (p : Point F) × (to_point floats d type now ≡ some p)
          × (p.time ≡ now)
          × (is_of_type type p.value ≡ true)
          × Shows floats d p.value
    unfolding to_point get_type sum_of
    to_point-Fits _ _ now e (fits_count start n) =
        let t = rw (e, get_type) at typed in
        let same : type ≡ cumulative_int64 = cc in
        rw (same, to_point) (record { time = now; value = int64_point n }, refl, refl, refl, refl)
    to_point-Fits _ _ now e (fits_sum start v) = elim (MeasureKind-cases m.kind) [
      | inl k ↦
          let t = rw (e, k, get_type) at typed in
          let same : type ≡ cumulative_int64 = cc in
          rw (same, to_point)
            (record { time = now; value = int64_point (floats.to_int v) }, refl, refl, refl, refl)
      | inr k ↦
          let t = rw (e, k, get_type) at typed in
          let same : type ≡ cumulative_float64 = cc in
          rw (same, to_point)
            (record { time = now; value = float64_point v }, refl, refl, refl, refl)
    ]
    to_point-Fits _ _ now e (fits_distribution a h) =
        let t = rw (e, get_type) at typed in
        let same : type ≡ cumulative_distribution = cc in
        let (buckets, run, same_counts, same_exemplars) =
          buckets_of_total floats a.count_per_bucket a.exemplars_per_bucket
            (h.counts_fit ∙ sym h.exemplars_fit) in
        rw (same, to_point, run)
          (_, refl, refl, refl, (refl, refl, refl, refl, same_counts, same_exemplars))
    to_point-Fits _ _ now e (fits_last_value v) = elim (MeasureKind-cases m.kind) [
      | inl k ↦
          let t = rw (e, k, get_type) at typed in
          let same : type ≡ gauge_int64 = cc in
          rw (same, to_point)
            (record { time = now; value = int64_point (floats.to_int v) }, refl, refl, refl, refl)
      | inr k ↦
          let t = rw (e, k, get_type) at typed in
          let same : type ≡ gauge_float64 = cc in
          rw (same, to_point)
            (record { time = now; value = float64_point v }, refl, refl, refl, refl)
    ]

    -- For an aggregation that the package made and a measure that have a metric type, the data of a row take every
    -- sample without a panic, and give a point with the time of the read whose value is of that
    -- type, an int64, a float64 or a distribution, and shows the data.
    pub to_point-collect :
        (start : ℕ) (log : Log F) (now : ℕ)
        → (d : AggregationData F) × (collect agg start log ≡ some d)
          × ((p : Point F) × (to_point floats d type now ≡ some p)
              × (p.time ≡ now)
              × (is_of_type type p.value ≡ true)
              × Shows floats d p.value)
    to_point-collect start log now =
        let (d, run, h) = collect-Fits start log in
        (d, run, to_point-Fits agg.agg_type d now refl h)
