-- ===== src/Metric/Entries.antt =====
-- metric/gauge.go and metric/cumulative.go: the entries of each kind of metric. An entry is known
-- by its metric and its map key.
pub mod Calls
pub mod Cumulative
pub mod Concurrent
use opencensus_go.Floats.{Floats}
use opencensus_go.Metric.{is_negative, int64_add, LabelValue}
use opencensus_go.Metric.Base.{
  Entry, int64_entry, float64_entry, derived_int64, derived_float64, BaseMetric, entry_for_values,
  upsert_entry, change,
}
use opencensus_go.Prelude.{
  ℕ, Bytes, bytes_eq, nat_eq, ◌==◌, List, Bool, true, false, ◌||◌, Option, none, some, lookup,
  insert, if◌then◌else◌,
}

module _ {F : Type 0} where
  -- `GetEntry` of a gauge or cumulative of int64 values.
  unfoldable pub get_int64_entry : BaseMetric F → List LabelValue → Option (Bytes × BaseMetric F)
  unfolding entry_for_values
  get_int64_entry bm label_vals = entry_for_values bm label_vals (int64_entry 0)

  -- `GetEntry` of a gauge or cumulative of float64 values.
  unfoldable pub get_float64_entry :
      Floats F → BaseMetric F → List LabelValue → Option (Bytes × BaseMetric F)
  unfolding entry_for_values
  get_float64_entry floats bm label_vals =
      entry_for_values bm label_vals (float64_entry floats.zero)

  -- `UpsertEntry` of a derived metric; a nil function, and a number of label values that is not
  -- that of the keys, are errors.
  unfoldable pub upsert_int64_entry :
      BaseMetric F → Option (ℕ → ℕ) → List LabelValue → Option (BaseMetric F)
  unfolding upsert_entry
  upsert_int64_entry bm none label_vals = none
  upsert_int64_entry bm (some fn) label_vals = upsert_entry bm label_vals (derived_int64 fn)

  unfoldable pub upsert_float64_entry :
      BaseMetric F → Option (ℕ → F) → List LabelValue → Option (BaseMetric F)
  unfolding upsert_entry
  upsert_float64_entry bm none label_vals = none
  upsert_float64_entry bm (some fn) label_vals = upsert_entry bm label_vals (derived_float64 fn)

  abbrev on_int64 : (ℕ → ℕ) → Entry F → Entry F
  on_int64 f (int64_entry v) = int64_entry (f v)
  on_int64 f (float64_entry v) = float64_entry v
  on_int64 f (derived_int64 fn) = derived_int64 fn
  on_int64 f (derived_float64 fn) = derived_float64 fn

  abbrev on_float64 : (F → F) → Entry F → Entry F
  on_float64 f (float64_entry v) = float64_entry (f v)
  on_float64 f (int64_entry v) = int64_entry v
  on_float64 f (derived_int64 fn) = derived_int64 fn
  on_float64 f (derived_float64 fn) = derived_float64 fn

  -- `Set` and `Add` of a gauge.
  unfoldable pub set_int64 : BaseMetric F → Bytes → ℕ → BaseMetric F
  set_int64 bm key val = change (on_int64 (λ v. val)) bm key

  unfoldable pub add_int64 : BaseMetric F → Bytes → ℕ → BaseMetric F
  add_int64 bm key val = change (on_int64 (λ v. int64_add v val)) bm key

  unfoldable pub set_float64 : BaseMetric F → Bytes → F → BaseMetric F
  set_float64 bm key val = change (on_float64 (λ v. val)) bm key

  -- The loop of the compare-and-swap ends in its first round when no other call interferes.
  unfoldable pub add_float64 : Floats F → BaseMetric F → Bytes → F → BaseMetric F
  add_float64 floats bm key val = change (on_float64 (λ v. floats.add v val)) bm key

  -- `Inc` of a cumulative: a value that is not positive changes nothing.
  unfoldable pub inc_int64 : BaseMetric F → Bytes → ℕ → BaseMetric F
  unfolding add_int64
  inc_int64 bm key val = if is_negative val || val == 0 then bm else add_int64 bm key val

  unfoldable pub inc_float64 : Floats F → BaseMetric F → Bytes → F → BaseMetric F
  unfolding add_float64
  inc_float64 floats bm key val =
      if floats.less val floats.zero || floats.equal val floats.zero
      then bm
      else add_float64 floats bm key val
