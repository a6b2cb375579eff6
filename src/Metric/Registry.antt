-- ===== src/Metric/Registry.antt =====
-- metric/registry.go: the gauges and cumulatives of a registry. A metric is known by its address,
-- under which `heap` keeps it: a handle from before a metric of the same name was added still
-- reaches the old one.
pub mod Names
use opencensus_go.Floats.{Floats}
use opencensus_go.Metric.{LabelKey, LabelValue, MetricType, Metric}
use opencensus_go.Metric
use opencensus_go.Metric.Base.{
  BaseMetricType, gauge_int64, gauge_float64, derived_gauge_int64, derived_gauge_float64,
  cumulative_int64, cumulative_float64, derived_cumulative_int64, derived_cumulative_float64,
  BaseMetric, read,
}
use opencensus_go.Prelude.{
  ℕ, ◌+◌, Bytes, bytes_eq, nat_eq, ◌==◌, List, [], ◌∷◌, ◌++◌, map, Bool, true, false, Option, none,
  some, lookup, insert, sort_by, if◌then◌else◌,
}

pub record Registry (F : Type 0) : Type 0 where
  pub base_metrics : List (Bytes × ℕ)
  pub heap : List (ℕ × BaseMetric F)
  pub next : ℕ

pub record MetricOptions : Type 0 where
  pub unit_of : Bytes
  pub labelkeys : List LabelKey
  pub const_labels : List (LabelKey × LabelValue)
  pub desc : Bytes

abbrev pub Options : Type 0
Options = MetricOptions → MetricOptions

abbrev pub with_description : Bytes → Options
with_description desc = λ mo. record mo { desc = desc }

abbrev pub with_unit : Bytes → Options
with_unit unit = λ mo. record mo { unit_of = unit }

abbrev pub with_label_keys : List Bytes → Options
with_label_keys keys =
    λ mo. record mo { labelkeys = map (λ (k : Bytes). record { key = k; description = [] }) keys }

abbrev pub with_label_keys_and_description : List LabelKey → Options
with_label_keys_and_description keys = λ mo. record mo { labelkeys = keys }

abbrev pub with_const_label : List (LabelKey × LabelValue) → Options
with_const_label labels = λ mo. record mo { const_labels = labels }

apply_options : List Options → MetricOptions → MetricOptions
apply_options [] o = o
apply_options (mo ∷ mos) o = apply_options mos (mo o)

unfoldable pub create_metric_option : List Options → MetricOptions
unfolding apply_options
create_metric_option mos =
    apply_options mos (record { unit_of = []; labelkeys = []; const_labels = []; desc = [] })

unfoldable pub bm_type_to_metric_type : BaseMetricType → MetricType
bm_type_to_metric_type gauge_int64 = Metric.gauge_int64
bm_type_to_metric_type gauge_float64 = Metric.gauge_float64
bm_type_to_metric_type derived_gauge_int64 = Metric.gauge_int64
bm_type_to_metric_type derived_gauge_float64 = Metric.gauge_float64
bm_type_to_metric_type cumulative_int64 = Metric.cumulative_int64
bm_type_to_metric_type cumulative_float64 = Metric.cumulative_float64
bm_type_to_metric_type derived_cumulative_int64 = Metric.cumulative_int64
bm_type_to_metric_type derived_cumulative_float64 = Metric.cumulative_float64

-- The number of a type, in the order of the constants.
abbrev type_number : BaseMetricType → ℕ
type_number gauge_int64 = 0
type_number gauge_float64 = 1
type_number derived_gauge_int64 = 2
type_number derived_gauge_float64 = 3
type_number cumulative_int64 = 4
type_number cumulative_float64 = 5
type_number derived_cumulative_int64 = 6
type_number derived_cumulative_float64 = 7

abbrev pub same_type : BaseMetricType → BaseMetricType → Bool
same_type a b = type_number a == type_number b

abbrev const_key : LabelKey × LabelValue → Bytes
const_key e = e.0.key

abbrev Add : Type 0 → Type 0
Add F = Registry F → Bytes → List Options → ℕ → Option (ℕ × Registry F)

module _ {F : Type 0} where
  unfoldable pub new_registry : Registry F
  new_registry = record { base_metrics = []; heap = []; next = 0 }

  -- The metric that `initBaseMetric` sets up: the constant labels stand first, by their keys.
  unfoldable pub new_base_metric : BaseMetricType → Bytes → MetricOptions → ℕ → BaseMetric F
  unfolding sort_by bm_type_to_metric_type
  new_base_metric bm_type name o now =
      let consts = sort_by const_key o.const_labels in
      let keys = map (λ (e : LabelKey × LabelValue). e.0) consts ++ o.labelkeys in
      record {
        vals = [];
        desc = record {
          name = name;
          description = o.desc;
          unit_of = o.unit_of;
          metric_type = bm_type_to_metric_type bm_type;
          label_keys = keys;
        };
        start = now;
        keys = keys;
        const_label_values = map (λ (e : LabelKey × LabelValue). e.1) consts;
        bm_type = bm_type;
      }

  -- The existing metric of the name, which may be of another type.
  unfoldable pub find_metric : Registry F → Bytes → Option (BaseMetric F)
  find_metric r name = elim (lookup name r.base_metrics) [ none ↦ none | some x ↦ lookup x r.heap ]

  store_metric : Registry F → Bytes → BaseMetric F → Registry F
  store_metric r name bm = record {
    base_metrics = insert name r.next r.base_metrics;
    heap = insert r.next bm r.heap;
    next = r.next + 1;
  }

  -- `none` is errMetricExistsWithDiffType.
  unfoldable pub init_base_metric :
      Registry F → BaseMetricType → Bytes → List Options → ℕ → Option (ℕ × Registry F)
  unfolding find_metric store_metric new_base_metric create_metric_option
  init_base_metric r bm_type name mos now =
      let bm = new_base_metric bm_type name (create_metric_option mos) now in
      let stored = some (r.next, store_metric r name bm) in
      elim (find_metric r name) [
        | none ↦ stored
        | some existing ↦ if same_type existing.bm_type bm_type then stored else none
      ]

  unfoldable pub add_float64_gauge : Add F
  unfolding init_base_metric
  add_float64_gauge r = init_base_metric r gauge_float64

  unfoldable pub add_int64_gauge : Add F
  unfolding init_base_metric
  add_int64_gauge r = init_base_metric r gauge_int64

  unfoldable pub add_int64_derived_gauge : Add F
  unfolding init_base_metric
  add_int64_derived_gauge r = init_base_metric r derived_gauge_int64

  unfoldable pub add_float64_derived_gauge : Add F
  unfolding init_base_metric
  add_float64_derived_gauge r = init_base_metric r derived_gauge_float64

  unfoldable pub add_float64_cumulative : Add F
  unfolding init_base_metric
  add_float64_cumulative r = init_base_metric r cumulative_float64

  unfoldable pub add_int64_cumulative : Add F
  unfolding init_base_metric
  add_int64_cumulative r = init_base_metric r cumulative_int64

  unfoldable pub add_int64_derived_cumulative : Add F
  unfolding init_base_metric
  add_int64_derived_cumulative r = init_base_metric r derived_cumulative_int64

  unfoldable pub add_float64_derived_cumulative : Add F
  unfolding init_base_metric
  add_float64_derived_cumulative r = init_base_metric r derived_cumulative_float64

  -- A change of the metric at an address.
  unfoldable pub change_metric : ℕ → (BaseMetric F → BaseMetric F) → Registry F → Registry F
  change_metric x f r = elim (lookup x r.heap) [
    | none ↦ r
    | some bm ↦ record r { heap = insert x (f bm) r.heap }
  ]

module _ {F : Type 0} (floats : Floats F) where
  -- The loop over the metrics; `none` is a panic.
  unfoldable pub read_metrics :
      ℕ → List (ℕ × BaseMetric F) → List (Bytes × ℕ) → Option (List (Metric.Metric F))
  unfolding read
  read_metrics now heap [] = some []
  read_metrics now heap ((name, x) ∷ metrics) = elim (lookup x heap) [
    | none ↦ none
    | some bm ↦ elim (read floats bm now) [
      | none ↦ none
      | some m ↦ elim (read_metrics now heap metrics) [ none ↦ none | some ms ↦ some (m ∷ ms) ]
    ]
  ]

  unfoldable pub read_all : Registry F → ℕ → Option (List (Metric.Metric F))
  unfolding read_metrics
  read_all r now = read_metrics now r.heap r.base_metrics
