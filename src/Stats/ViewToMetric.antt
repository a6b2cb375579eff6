-- ===== src/Stats/ViewToMetric.antt =====
-- stats/view/view_to_metric.go: the rows of a view as a metric. `none` is a panic.
pub mod Points
pub mod Types
use opencensus_go.Floats.{Floats}
use opencensus_go.Metric.{
  MetricType, gauge_int64, gauge_float64, cumulative_int64, cumulative_float64,
  cumulative_distribution, LabelKey, LabelValue, Descriptor, TimeSeries, Metric,
}
use opencensus_go.Resource.{Resource}
use opencensus_go.Stats.Aggregation.{
  Aggregation, agg_none, agg_count, agg_sum, agg_distribution, agg_last_value,
}
use opencensus_go.Stats.AggregationData.{
  AggregationData, Sample, new_data, add_sample, to_point, start_time,
}
use opencensus_go.Stats.Collector.{Aggregator, TagValue, Row, Signatures, collected_rows}
use opencensus_go.Stats.Measures.{Measure, int64_kind, float64_kind}
use opencensus_go.Stats.Views.{Canonical}
use opencensus_go.Prelude.{
  ℕ, Bytes, bytes_eq, ◌==◌, List, [], ◌∷◌, map, Bool, true, false, Option, none, some, lookup,
  insert, if◌then◌else◌,
}

abbrev pub unit_dimensionless : Bytes
unit_dimensionless = 0x31 ∷ []

abbrev pub unit_milliseconds : Bytes
unit_milliseconds = 0x6d ∷ 0x73 ∷ []

abbrev pub unit_bytes : Bytes
unit_bytes = 0x42 ∷ 0x79 ∷ []

unfoldable pub get_unit : Bytes → Bytes
get_unit unit =
    if unit == unit_dimensionless
    then unit_dimensionless
    else (if unit == unit_milliseconds
        then unit_milliseconds
        else (if unit == unit_bytes then unit_bytes else unit_dimensionless))

-- The tags of a row as a map.
unfoldable pub tag_map : List TagValue → List (Bytes × Bytes) → List (Bytes × Bytes)
tag_map [] m = m
tag_map (t ∷ tags) m = tag_map tags (insert t.key t.value m)

unfoldable pub label_values : List (Bytes × Bytes) → List LabelKey → List LabelValue
label_values m [] = []
label_values m (key ∷ keys) =
    (elim (lookup key.key m) [
      | some val ↦ record { value = val; present = true }
      | none ↦ record { value = []; present = false }
    ])
    ∷ label_values m keys

-- What a row holds: `none` stands for data whose collection has panicked.
abbrev pub Collected : Type 0 → Type 0
Collected F = Option (AggregationData F)

module _ {F : Type 0} where
  unfoldable pub get_type : Measure → Aggregation F → Option MetricType
  get_type m agg = elim agg.agg_type [
    | agg_sum ↦ elim m.kind [
      | int64_kind ↦ some cumulative_int64
      | float64_kind ↦ some cumulative_float64
    ]
    | agg_distribution ↦ some cumulative_distribution
    | agg_last_value ↦ elim m.kind [
      | int64_kind ↦ some gauge_int64
      | float64_kind ↦ some gauge_float64
    ]
    | agg_count ↦ some cumulative_int64
    | agg_none ↦ none
  ]

  unfoldable pub get_label_keys : Canonical F → List LabelKey
  get_label_keys v = map (λ (k : Bytes). record { key = k; description = [] }) v.tag_keys

  unfoldable pub convert_unit : Canonical F → Bytes
  unfolding get_unit
  convert_unit v = elim v.aggregation.agg_type [
    | agg_count ↦ unit_dimensionless
    | _ ↦ get_unit v.measure.unit_of
  ]

  unfoldable pub view_to_metric_descriptor : Canonical F → Option Descriptor
  unfolding get_type get_label_keys convert_unit
  view_to_metric_descriptor v = elim (get_type v.measure v.aggregation) [
    | none ↦ none
    | some t ↦ some (record {
      name = v.name;
      description = v.description;
      unit_of = convert_unit v;
      metric_type = t;
      label_keys = get_label_keys v;
    })
  ]

  unfoldable pub to_label_values : Row (Collected F) → List LabelKey → List LabelValue
  unfolding tag_map label_values
  to_label_values row expected_keys = label_values (tag_map row.tags []) expected_keys

module _ {F : Type 0} (floats : Floats F) where
  -- The collector's aggregation and its data.
  unfoldable pub aggregator : Aggregation F → Aggregator (Collected F) (Sample F)
  unfolding new_data add_sample
  aggregator agg = record {
    new_data = λ t. new_data floats agg t;
    add_sample = λ d s t. elim d [ none ↦ none | some data_of ↦ add_sample floats data_of s t ];
  }

  unfoldable pub row_to_timeseries : Descriptor → Row (Collected F) → ℕ → Option (TimeSeries F)
  unfolding to_label_values to_point start_time
  row_to_timeseries desc row now = elim row.data_of [
    | none ↦ none
    | some data_of ↦ elim (to_point floats data_of desc.metric_type now) [
      | none ↦ none
      | some point ↦ some (record {
        points = point ∷ [];
        label_values = to_label_values row desc.label_keys;
        start_time = start_time data_of;
      })
    ]
  ]

  -- The loop over the rows.
  unfoldable pub rows_to_timeseries :
      Descriptor → List (Row (Collected F)) → ℕ → Option (List (TimeSeries F))
  unfolding row_to_timeseries
  rows_to_timeseries desc [] now = some []
  rows_to_timeseries desc (row ∷ rows) now = elim (row_to_timeseries desc row now) [
    | none ↦ none
    | some t ↦ elim (rows_to_timeseries desc rows now) [ none ↦ none | some ts ↦ some (t ∷ ts) ]
  ]

  -- The metric of a view, from its descriptor and what it collects; `some none` is nil.
  unfoldable pub view_to_metric :
      Canonical F
      → Descriptor
      → Signatures (Collected F)
      → Option Resource
      → ℕ
      → Option (Option (Metric F))
  unfolding rows_to_timeseries collected_rows
  view_to_metric v desc signatures r now = elim (collected_rows signatures v.tag_keys) [
    | none ↦ none
    | some [] ↦ some none
    | some (row ∷ rows) ↦ elim (rows_to_timeseries desc (row ∷ rows) now) [
      | none ↦ none
      | some ts ↦ some (some (record { descriptor = desc; resource = r; time_series = ts }))
    ]
  ]
