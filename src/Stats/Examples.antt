-- ===== src/Stats/Examples.antt =====
-- Runs of aggregations and of the recording of measurements.
use opencensus_go.Floats.Whole.{whole}
use opencensus_go.Metric.{cumulative_distribution, Point}
use opencensus_go.Stats.Aggregation.{Aggregation, agg_distribution}
use opencensus_go.Stats.AggregationData.{
  AggregationData, Sample, DistributionData, new_distribution_data, to_point,
}
use opencensus_go.Stats.AggregationData.Counts.{
  Log, add_log, IsTransitive, IsHistogram, add_log-IsHistogram,
}
use opencensus_go.Stats.AggregationData.Extremes.{add_log-max_low}
use opencensus_go.Stats.Measures.{Measure, int64_kind}
use opencensus_go.Stats.ViewToMetric.{get_type}
use opencensus_go.Stats.ViewToMetric.Types.{collect, to_point-collect}
use opencensus_go.Stats.ViewToMetric.Points.{is_of_type, Shows}
use opencensus_go.Prelude.{ℕ, ◌≡◌, refl, [], ◌∷◌, some, true, arith}

abbrev bounds : Aggregation ℕ
bounds = record {
  address = 7;
  agg_type = agg_distribution;
  buckets = 1002 ∷ 1005 ∷ [];
  has_new_data = true;
}

abbrev at_value : ℕ → Sample ℕ × ℕ
at_value v = (record { value = v; attachments = [] }, 3)

transitive : IsTransitive whole
transitive a b c p q = ground arith

abbrev samples : Log ℕ
samples = at_value 1003 ∷ at_value 1001 ∷ at_value 1009 ∷ at_value 1005 ∷ []

add_log-IsHistogram_example :
    (a : DistributionData ℕ) × (add_log whole (new_distribution_data whole bounds 1) samples
      ≡ some a)
    × IsHistogram whole transitive bounds (refl, tt) a samples
add_log-IsHistogram_example =
    add_log-IsHistogram whole transitive bounds (refl, tt) 1 samples (omega arith)

-- The samples -3 and -5.
abbrev negatives : Log ℕ
negatives = at_value 997 ∷ at_value 995 ∷ []

add_log-max_low_example :
    (a : DistributionData ℕ) × (add_log whole (new_distribution_data whole bounds 1) negatives
      ≡ some a)
    × (a.count ≡ 2)
    × (a.max ≡ 1001)
add_log-max_low_example =
    add_log-max_low whole transitive bounds (refl, tt) 1 negatives (omega arith) (refl, (refl, tt))

abbrev measure : Measure
measure = record { kind = int64_kind; name = 0x6c ∷ []; description = []; unit_of = [] }

to_point-collect_example :
    (d : AggregationData ℕ) × (collect whole bounds 1 samples ≡ some d)
    × ((p : Point ℕ) × (to_point whole d cumulative_distribution 9 ≡ some p)
        × (p.time ≡ 9)
        × (is_of_type cumulative_distribution p.value ≡ true)
        × Shows whole d p.value)
unfolding get_type
to_point-collect_example =
    to_point-collect whole bounds measure cumulative_distribution refl refl 1 samples 9
