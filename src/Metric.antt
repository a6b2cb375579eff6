-- ===== src/Metric.antt =====
-- The packages metric and metric/metricdata: the data of a metric, and int64 arithmetic.
pub mod Labels
pub mod Base
pub mod Entries
pub mod Registry
pub mod Manager
pub mod Reader
mod Examples
use opencensus_go.Resource.{Resource}
use opencensus_go.Prelude.{
  ℕ, ◌+◌, ◌%◌, ◌^◌, Bytes, List, Bool, true, false, Option, ltb, leb, ◌||◌, ◌==◌, nat_eq,
}

-- An int64 is its bit pattern, a number below 2 ^ 64; it is negative from 2 ^ 63 on.
abbrev pub is_negative : ℕ → Bool
is_negative n = leb (2 ^ 63) n

abbrev pub int64_add : ℕ → ℕ → ℕ
int64_add a b = (a + b) % 2 ^ 64

pub data MetricType : Type 0 where
  gauge_int64 gauge_float64 gauge_distribution : MetricType
  cumulative_int64 cumulative_float64 cumulative_distribution summary : MetricType

pub record LabelKey : Type 0 where
  pub key : Bytes
  pub description : Bytes

pub record LabelValue : Type 0 where
  pub value : Bytes
  pub present : Bool

pub record Descriptor : Type 0 where
  pub name : Bytes
  pub description : Bytes
  pub unit_of : Bytes
  pub metric_type : MetricType
  pub label_keys : List LabelKey

pub record Exemplar (F : Type 0) : Type 0 where
  pub value : F
  pub timestamp : ℕ
  pub attachments : List (Bytes × Bytes)

-- A bucket of a distribution: its count and its exemplar, where `none` is nil.
pub record Bucket (F : Type 0) : Type 0 where
  pub count : ℕ
  pub exemplar : Option (Exemplar F)

pub record Distribution (F : Type 0) : Type 0 where
  pub count : ℕ
  pub sum : F
  pub sum_of_squared_deviation : F
  pub bounds : List F
  pub buckets : List (Bucket F)

pub data PointValue (F : Type 0) : Type 0 where
  int64_point : ℕ → PointValue F
  float64_point : F → PointValue F
  distribution_point : Distribution F → PointValue F

pub record Point (F : Type 0) : Type 0 where
  pub time : ℕ
  pub value : PointValue F

pub record TimeSeries (F : Type 0) : Type 0 where
  pub points : List (Point F)
  pub label_values : List LabelValue
  pub start_time : ℕ

pub record Metric (F : Type 0) : Type 0 where
  pub descriptor : Descriptor
  -- `none` is a nil resource, which the metrics of a registry have.
  pub resource : Option Resource
  pub time_series : List (TimeSeries F)
