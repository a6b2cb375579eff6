-- ===== src/Stats/ViewToMetric/Points.antt =====
-- The values of points: of which metric type they are, and what they show of the data.
use opencensus_go.Floats.{Floats}
use opencensus_go.Metric.{
  MetricType, cumulative_int64, cumulative_float64, gauge_int64, gauge_float64, gauge_distribution,
  cumulative_distribution, int64_point, float64_point, distribution_point, Exemplar, Bucket,
  PointValue,
}
use opencensus_go.Stats.AggregationData.{
  AggregationData, count_data, sum_data, distribution_data, last_value_data, buckets_of,
}
use opencensus_go.Prelude.{
  ℕ, ◌≡◌, refl, ap, List, [], ◌∷◌, map, Option, some, length, Bool, true, false, arith,
}

module _ {F : Type 0} where
  -- The kinds of values that the points of a metric have: int64, float64 or a distribution. A view
  -- has no summaries.
  abbrev pub is_of_type : MetricType → PointValue F → Bool
  is_of_type gauge_int64 (int64_point n) = true
  is_of_type gauge_float64 (float64_point v) = true
  is_of_type gauge_distribution (distribution_point d) = true
  is_of_type cumulative_int64 (int64_point n) = true
  is_of_type cumulative_float64 (float64_point v) = true
  is_of_type cumulative_distribution (distribution_point d) = true
  is_of_type _ _ = false

module _ {F : Type 0} (floats : Floats F) where
  -- The value shows the data: the count, the sum or the last value, for an int64 metric as an int64,
  -- and of a distribution the count, the mean times the count, the sum of the squared deviations,
  -- the bounds, and the counts and exemplars of the buckets.
  abbrev pub Shows : AggregationData F → PointValue F → Type 0
  Shows (count_data start n) (int64_point m) = m ≡ n
  Shows (sum_data start v) (int64_point m) = m ≡ floats.to_int v
  Shows (sum_data start v) (float64_point x) = x ≡ v
  Shows (distribution_data a) (distribution_point d) =
      (d.count ≡ a.count)
      × (d.sum ≡ floats.mul a.mean (floats.of_int a.count))
      × (d.sum_of_squared_deviation ≡ a.sum_of_squared_dev)
      × (d.bounds ≡ a.bounds)
      × (map (λ (b : Bucket F). b.count) d.buckets ≡ a.count_per_bucket)
      × (map (λ (b : Bucket F). b.exemplar) d.buckets ≡ a.exemplars_per_bucket)
  Shows (last_value_data v) (int64_point m) = m ≡ floats.to_int v
  Shows (last_value_data v) (float64_point x) = x ≡ v
  Shows _ _ = ⊥

  pub buckets_of_total :
      (counts : List ℕ) (exemplars : List (Option (Exemplar F)))
      → length counts ≡ length exemplars
      → (buckets : List (Bucket F)) × (buckets_of floats counts exemplars ≡ some buckets)
        × (map (λ (b : Bucket F). b.count) buckets ≡ counts)
        × (map (λ (b : Bucket F). b.exemplar) buckets ≡ exemplars)
  unfolding buckets_of
  buckets_of_total [] [] h = ([], refl, refl, refl)
  buckets_of_total [] (e ∷ exemplars) h = absurd (omega (arith, h))
  buckets_of_total (n ∷ counts) [] h = absurd (omega (arith, h))
  buckets_of_total (n ∷ counts) (e ∷ exemplars) h =
      let (buckets, run, same_counts, same_exemplars) =
        buckets_of_total counts exemplars (omega (arith, h)) in
      (
        record { count = n; exemplar = e } ∷ buckets,
        rw (run, buckets_of) refl,
        ap (◌∷◌ n) same_counts,
        ap (◌∷◌ e) same_exemplars,
      )
