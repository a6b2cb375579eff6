-- ===== src/Metric/Entries/Calls.antt =====
-- The calls that clients make on the metrics of all kinds, in any order, and what is read.
use opencensus_go.Floats.{Floats}
use opencensus_go.Metric.{LabelValue, Metric}
use opencensus_go.Metric.Labels.RoundTrip.{IsShortLabel}
use opencensus_go.Metric.Base.{BaseMetric}
use opencensus_go.Metric.Entries.{
  get_int64_entry, get_float64_entry, upsert_int64_entry, upsert_float64_entry, set_int64,
  add_int64, set_float64, add_float64, inc_int64, inc_float64,
}
use opencensus_go.Prelude.{ℕ, Bytes, bytes_eq, nat_eq, List, [], ◌∷◌, Option, none, some, All}

-- The calls on a metric. A call that returns an error leaves the metric as it is.
pub data Call (F : Type 0) : Type 0 where
  gets_int64 gets_float64 : List LabelValue → Call F
  upserts_int64 : Option (ℕ → ℕ) → List LabelValue → Call F
  upserts_float64 : Option (ℕ → F) → List LabelValue → Call F
  sets_int64 adds_int64 incs_int64 : Bytes → ℕ → Call F
  sets_float64 adds_float64 incs_float64 : Bytes → F → Call F

abbrev or_old : {F : Type 0} → Option (BaseMetric F) → BaseMetric F → BaseMetric F
or_old none bm = bm
or_old (some bm') bm = bm'

abbrev got_or_old : {F : Type 0} → Option (Bytes × BaseMetric F) → BaseMetric F → BaseMetric F
got_or_old none bm = bm
got_or_old (some (key, bm')) bm = bm'

module _ {F : Type 0} (floats : Floats F) where
  unfoldable pub call : BaseMetric F → Call F → BaseMetric F
  unfolding get_int64_entry get_float64_entry upsert_int64_entry upsert_float64_entry set_int64
  call bm (gets_int64 vs) = got_or_old (get_int64_entry bm vs) bm
  call bm (gets_float64 vs) = got_or_old (get_float64_entry floats bm vs) bm
  call bm (upserts_int64 fn vs) = or_old (upsert_int64_entry bm fn vs) bm
  call bm (upserts_float64 fn vs) = or_old (upsert_float64_entry bm fn vs) bm
  call bm (sets_int64 key v) = set_int64 bm key v
  call bm (adds_int64 key v) = add_int64 bm key v
  call bm (incs_int64 key v) = inc_int64 bm key v
  call bm (sets_float64 key v) = set_float64 bm key v
  call bm (adds_float64 key v) = add_float64 floats bm key v
  call bm (incs_float64 key v) = inc_float64 floats bm key v

  unfoldable pub call_all : BaseMetric F → List (Call F) → BaseMetric F
  unfolding call
  call_all bm [] = bm
  call_all bm (c ∷ calls) = call_all (call bm c) calls

  -- The label values of a call are at most 254 bytes long.
  abbrev pub IsShortCall : Call F → Type 0
  IsShortCall (gets_int64 vs) = All IsShortLabel vs
  IsShortCall (gets_float64 vs) = All IsShortLabel vs
  IsShortCall (upserts_int64 fn vs) = All IsShortLabel vs
  IsShortCall (upserts_float64 fn vs) = All IsShortLabel vs
  IsShortCall c = Unit {0}
