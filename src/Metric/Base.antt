-- ===== src/Metric/Base.antt =====
-- metric/common.go: the entries of a gauge or a cumulative, under their label values. A call that
-- gives an entry gives its map key, by which the other calls change it.
pub mod Read
use opencensus_go.Floats.{Floats}
use opencensus_go.Metric.{
  is_negative, LabelKey, LabelValue, Descriptor, PointValue, int64_point, float64_point, Point,
  TimeSeries, Metric,
}
use opencensus_go.Metric.Labels.{encode_label_vals, decode_label_vals}
use opencensus_go.Prelude.{
  ℕ, Bytes, bytes_eq, nat_eq, ◌==◌, List, [], ◌∷◌, ◌++◌, Option, none, some, length, lookup, insert,
  erase, if◌then◌else◌,
}

pub data BaseMetricType : Type 0 where
  gauge_int64 gauge_float64 derived_gauge_int64 derived_gauge_float64 : BaseMetricType
  cumulative_int64 cumulative_float64 : BaseMetricType
  derived_cumulative_int64 derived_cumulative_float64 : BaseMetricType

-- The entries of gauges and cumulatives have the same fields. The function of a derived one gives
-- its value at a time.
pub data Entry (F : Type 0) : Type 0 where
  int64_entry : ℕ → Entry F
  float64_entry : F → Entry F
  derived_int64 : (ℕ → ℕ) → Entry F
  derived_float64 : (ℕ → F) → Entry F

pub record BaseMetric (F : Type 0) : Type 0 where
  pub vals : List (Bytes × Entry F)
  pub desc : Descriptor
  pub start : ℕ
  pub keys : List LabelKey
  pub const_label_values : List LabelValue
  pub bm_type : BaseMetricType

-- A gauge has no start time.
unfoldable pub start_time : {F : Type 0} → BaseMetric F → Option ℕ
start_time bm = elim bm.bm_type [
  | cumulative_int64 ↦ some bm.start
  | cumulative_float64 ↦ some bm.start
  | derived_cumulative_int64 ↦ some bm.start
  | derived_cumulative_float64 ↦ some bm.start
  | _ ↦ none
]

abbrev pub or_now : Option ℕ → ℕ → ℕ
or_now none now = now
or_now (some start) now = start

module _ {F : Type 0} (floats : Floats F) where
  -- The `read` methods of the entries: a negative value that is not derived reads as 0.
  unfoldable pub read_entry : Entry F → ℕ → Point F
  read_entry (int64_entry v) t = record {
    time = t;
    value = int64_point (if is_negative v then 0 else v);
  }
  read_entry (float64_entry v) t = record {
    time = t;
    value = float64_point (if floats.less v floats.zero then floats.zero else v);
  }
  read_entry (derived_int64 fn) t = record { time = t; value = int64_point (fn t) }
  read_entry (derived_float64 fn) t = record { time = t; value = float64_point (fn t) }

  -- The loop over the entries; `none` is a panic.
  unfoldable pub read_entries : ℕ → ℕ → ℕ → List (Bytes × Entry F) → Option (List (TimeSeries F))
  unfolding read_entry decode_label_vals
  read_entries keys start now [] = some []
  read_entries keys start now ((key, entry) ∷ vals) = elim (decode_label_vals keys key) [
    | none ↦ none
    | some label_vals ↦ elim (read_entries keys start now vals) [
      | none ↦ none
      | some rest ↦ some (
          record {
            points = read_entry entry now ∷ [];
            label_values = label_vals;
            start_time = start;
          }
          ∷ rest)
    ]
  ]

  unfoldable pub read : BaseMetric F → ℕ → Option (Metric F)
  unfolding read_entries start_time
  read bm now = elim (read_entries (length bm.keys) (or_now (start_time bm) now) now bm.vals) [
    | none ↦ none
    | some series ↦ some (record { descriptor = bm.desc; resource = none; time_series = series })
  ]

module _ {F : Type 0} where
  -- `none` is errKeyValueMismatch.
  unfoldable pub entry_for_values :
      BaseMetric F → List LabelValue → Entry F → Option (Bytes × BaseMetric F)
  unfolding encode_label_vals
  entry_for_values bm label_vals new_entry =
      let all = bm.const_label_values ++ label_vals in
      let map_key = encode_label_vals all in
      if length all == length bm.keys
      then elim (lookup map_key bm.vals) [
        | some entry ↦ some (map_key, bm)
        | none ↦ some (map_key, record bm { vals = insert map_key new_entry bm.vals })
      ]
      else none

  unfoldable pub upsert_entry : BaseMetric F → List LabelValue → Entry F → Option (BaseMetric F)
  unfolding encode_label_vals
  upsert_entry bm label_vals new_entry =
      let all = bm.const_label_values ++ label_vals in
      let map_key = encode_label_vals all in
      if length all == length bm.keys
      then some (record bm { vals = insert map_key new_entry (erase map_key bm.vals) })
      else none

  -- A change of the entry under a key.
  abbrev pub change : (Entry F → Entry F) → BaseMetric F → Bytes → BaseMetric F
  change f bm key = elim (lookup key bm.vals) [
    | none ↦ bm
    | some entry ↦ record bm { vals = insert key (f entry) bm.vals }
  ]
