-- ===== src/Stats/AggregationData.antt =====
-- stats/view/aggregation_data.go: the data that an aggregation collects.
pub mod Counts
pub mod Extremes
use opencensus_go.Floats.{Floats}
use opencensus_go.Metric.{
  is_negative, int64_add, MetricType, gauge_int64, gauge_float64, cumulative_int64,
  cumulative_float64, cumulative_distribution, Exemplar, Bucket, PointValue, int64_point,
  float64_point, distribution_point, Point,
}
use opencensus_go.Stats.Aggregation.{
  Aggregation, agg_none, agg_count, agg_sum, agg_distribution, agg_last_value,
}
use opencensus_go.Prelude.{
  ℕ, zero, suc, ◌+◌, ◌-◌, ◌^◌, ◌%◌, Bytes, Bool, true, false, ◌&&◌, ◌||◌, not, List, [], ◌∷◌, ◌==◌,
  leb, nat_eq, Option, none, some, length, get_elem?, set, replicate, if◌then◌else◌,
}

abbrev pub Attachments : Type 0
Attachments = List (Bytes × Bytes)

-- What is recorded: a value with the attachments of its exemplar.
pub record Sample (F : Type 0) : Type 0 where
  pub value : F
  pub attachments : Attachments

-- A time is a number of nanoseconds since the zero time.
pub record DistributionData (F : Type 0) : Type 0 where
  pub count : ℕ
  pub min : F
  pub max : F
  pub mean : F
  pub sum_of_squared_dev : F
  pub count_per_bucket : List ℕ
  pub exemplars_per_bucket : List (Option (Exemplar F))
  pub bounds : List F
  pub start : ℕ

pub data AggregationData (F : Type 0) : Type 0 where
  count_data : ℕ → ℕ → AggregationData F
  sum_data : ℕ → F → AggregationData F
  distribution_data : DistributionData F → AggregationData F
  last_value_data : F → AggregationData F

unfoldable pub get_exemplar : {F : Type 0} → Sample F → ℕ → Option (Exemplar F)
get_exemplar s t = elim s.attachments [
  | [] ↦ none
  | a ∷ attachments ↦
      some (record { value = s.value; timestamp = t; attachments = a ∷ attachments })
]

module _ {F : Type 0} (floats : Floats F) where
  unfoldable pub new_distribution_data : Aggregation F → ℕ → DistributionData F
  new_distribution_data agg t =
      let bucket_count = length agg.buckets + 1 in
      record {
        count = 0;
        min = floats.max_float;
        max = floats.smallest_nonzero;
        mean = floats.zero;
        sum_of_squared_dev = floats.zero;
        count_per_bucket = replicate bucket_count 0;
        exemplars_per_bucket = replicate bucket_count none;
        bounds = agg.buckets;
        start = t;
      }

  -- `newData` of the aggregations; calling a nil one panics, and so does an aggregation of no type, which
  -- has none.
  unfoldable pub new_data : Aggregation F → ℕ → Option (AggregationData F)
  unfolding new_distribution_data
  new_data agg t = elim agg.has_new_data [
    | false ↦ none
    | true ↦ elim agg.agg_type [
      | agg_none ↦ none
      | agg_count ↦ some (count_data t 0)
      | agg_sum ↦ some (sum_data t floats.zero)
      | agg_distribution ↦ some (distribution_data (new_distribution_data agg t))
      | agg_last_value ↦ some (last_value_data floats.zero)
    ]
  ]

  -- The loop over the bounds of `addToBucket`: the first bound above the value, else the last bucket.
  unfoldable pub bucket_index : List F → F → ℕ
  bucket_index [] v = 0
  bucket_index (b ∷ bounds) v =
      let rest = bucket_index bounds v in if floats.less v b then 0 else suc rest

  -- `none` is a panic: there are fewer counts than buckets.
  unfoldable pub add_to_bucket : DistributionData F → Sample F → ℕ → Option (DistributionData F)
  unfolding bucket_index get_exemplar
  add_to_bucket a s t =
      let i = bucket_index a.bounds s.value in
      elim (get_elem? a.count_per_bucket i) [
        | none ↦ none
        | some count ↦
            let counted = record a {
              count_per_bucket = set a.count_per_bucket i (int64_add count 1);
            } in
            elim (get_exemplar s t) [
              | none ↦ some counted
              | some exemplar ↦ elim (get_elem? a.exemplars_per_bucket i) [
                | none ↦ none
                | some old ↦ some (record counted {
                  exemplars_per_bucket = set a.exemplars_per_bucket i (some exemplar);
                })
              ]
            ]
      ]

  -- The new mean, and the squared deviations from it.
  unfoldable pub update_mean : DistributionData F → F → DistributionData F
  update_mean a v =
      if a.count == 1
      then record a { mean = v }
      else (let mean =
            floats.add a.mean (floats.div (floats.sub v a.mean) (floats.of_int a.count)) in
          record a {
            mean = mean;
            sum_of_squared_dev =
                floats.add a.sum_of_squared_dev
                  (floats.mul (floats.sub v a.mean) (floats.sub v mean));
          })

  unfoldable pub add_to_distribution :
      DistributionData F → Sample F → ℕ → Option (DistributionData F)
  unfolding add_to_bucket update_mean
  add_to_distribution a s t =
      let v = s.value in
      let seen = record a {
        min = if floats.less v a.min then v else a.min;
        max = if floats.less a.max v then v else a.max;
        count = int64_add a.count 1;
      } in
      elim (add_to_bucket seen s t) [ none ↦ none | some a' ↦ some (update_mean a' v) ]

  unfoldable pub add_sample : AggregationData F → Sample F → ℕ → Option (AggregationData F)
  unfolding add_to_distribution
  add_sample (count_data start n) s t = some (count_data start (int64_add n 1))
  add_sample (sum_data start v) s t = some (sum_data start (floats.add v s.value))
  add_sample (distribution_data a) s t = elim (add_to_distribution a s t) [
    | none ↦ none
    | some a' ↦ some (distribution_data a')
  ]
  add_sample (last_value_data v) s t = some (last_value_data s.value)

  unfoldable pub sum_of : DistributionData F → F
  sum_of a = floats.mul a.mean (floats.of_int a.count)

  unfoldable pub variance : DistributionData F → F
  variance a =
      if is_negative a.count || leb a.count 1
      then floats.zero
      else floats.div a.sum_of_squared_dev (floats.of_int (a.count - 1))

  abbrev near : F → F → Bool
  near x y = floats.less (floats.square (floats.sub x y)) floats.epsilon

  abbrev same_counts : List ℕ → List ℕ → Bool
  same_counts [] [] = true
  same_counts [] (y ∷ ys) = false
  same_counts (x ∷ xs) [] = false
  same_counts (x ∷ xs) (y ∷ ys) = x == y && same_counts xs ys

  unfoldable pub equal : AggregationData F → AggregationData F → Bool
  unfolding variance
  equal (count_data start n) (count_data start2 n2) = start == start2 && n == n2
  equal (sum_data start v) (sum_data start2 v2) = start == start2 && near v v2
  equal (distribution_data a) (distribution_data a2) =
      same_counts a.count_per_bucket a2.count_per_bucket
      && a.start == a2.start
      && a.count == a2.count
      && floats.equal a.min a2.min
      && floats.equal a.max a2.max
      && near a.mean a2.mean
      && near (variance a) (variance a2)
  equal (last_value_data v) (last_value_data v2) = floats.equal v v2
  equal _ _ = false

  -- The buckets of a point; `none` is a panic, of an exemplar that is missing.
  unfoldable pub buckets_of : List ℕ → List (Option (Exemplar F)) → Option (List (Bucket F))
  buckets_of [] exemplars = some []
  buckets_of (n ∷ counts) [] = none
  buckets_of (n ∷ counts) (e ∷ exemplars) = elim (buckets_of counts exemplars) [
    | none ↦ none
    | some buckets ↦ some (record { count = n; exemplar = e } ∷ buckets)
  ]

  -- `none` is a panic, for a type that is none of the data's.
  unfoldable pub to_point : AggregationData F → MetricType → ℕ → Option (Point F)
  unfolding buckets_of sum_of
  to_point (count_data start n) cumulative_int64 t =
      some (record { time = t; value = int64_point n })
  to_point (sum_data start v) cumulative_int64 t =
      some (record { time = t; value = int64_point (floats.to_int v) })
  to_point (sum_data start v) cumulative_float64 t =
      some (record { time = t; value = float64_point v })
  to_point (distribution_data a) cumulative_distribution t =
      elim (buckets_of a.count_per_bucket a.exemplars_per_bucket) [
        | none ↦ none
        | some buckets ↦ some (record {
          time = t;
          value = distribution_point (record {
            count = a.count;
            sum = sum_of a;
            sum_of_squared_deviation = a.sum_of_squared_dev;
            bounds = a.bounds;
            buckets = buckets;
          });
        })
      ]
  to_point (last_value_data v) gauge_int64 t =
      some (record { time = t; value = int64_point (floats.to_int v) })
  to_point (last_value_data v) gauge_float64 t = some (record { time = t; value = float64_point v })
  to_point _ _ t = none

module _ {F : Type 0} where
  unfoldable pub start_time : AggregationData F → ℕ
  start_time (count_data start n) = start
  start_time (sum_data start v) = start
  start_time (distribution_data a) = a.start
  start_time (last_value_data v) = 0

  unfoldable pub clear_start : AggregationData F → AggregationData F
  clear_start (count_data start n) = count_data 0 n
  clear_start (sum_data start v) = sum_data 0 v
  clear_start (distribution_data a) = distribution_data (record a { start = 0 })
  clear_start (last_value_data v) = last_value_data v
