-- ===== src/Metric/Examples.antt =====
-- Runs of the gauges and cumulatives.
use opencensus_go.Floats.Whole.{whole}
use opencensus_go.Metric.{LabelValue, Metric, cumulative_int64, int64_point}
use opencensus_go.Metric.Labels.{encode_label_vals, missing, decode_label_vals}
use opencensus_go.Metric.Labels.RoundTrip.{decode_label_vals-encode, decode_label_vals_long}
use opencensus_go.Metric.Base.{Entry, int64_entry, BaseMetric, gauge_int64, read_entry}
use opencensus_go.Metric.Base
use opencensus_go.Metric.Entries.Calls.{gets_int64, incs_int64, Call, call_all}
use opencensus_go.Metric.Entries.Cumulative.{inc_all, read-inc_all}
use opencensus_go.Metric.Entries.Concurrent.{
  before, loaded, done, Adder, State, loads, swaps, retries, Reaches, here, after, IsSum,
  reaches-IsSum,
}
use opencensus_go.Metric.Registry.{Registry, init_base_metric, new_registry}
use opencensus_go.Metric.Registry.Names.{IsAllocated, Conflicts, Stored, init_base_metric_lem}
use opencensus_go.Prelude.{
  ℕ, zero, suc, ◌+◌, ◌≡◌, ◌⊎◌, refl, Bytes, bytes_eq, List, [], ◌∷◌, some, none, true, false,
  lookup, arith,
}

abbrev present_label : LabelValue
present_label = record { value = 97 ∷ 98 ∷ []; present = true }

abbrev absent_label : LabelValue
absent_label = record { value = 97 ∷ []; present = false }

abbrev repeat : ℕ → Bytes
repeat zero = []
repeat (suc n) = 97 ∷ repeat n

abbrev long_label : LabelValue
long_label = record { value = repeat 255; present = true }

decode_label_vals-encode_example :
    decode_label_vals 2 (encode_label_vals (present_label ∷ absent_label ∷ []))
    ≡ some (present_label ∷ missing ∷ [])
decode_label_vals-encode_example =
    decode_label_vals-encode (present_label ∷ absent_label ∷ []) (omega arith, (omega arith, tt))

decode_label_vals_long_example :
    (decode_label_vals 1 (encode_label_vals (long_label ∷ [])) ≡ none)
    × (encode_label_vals (long_label ∷ []) ≡ encode_label_vals (long_label ∷ []))
decode_label_vals_long_example = decode_label_vals_long long_label long_label [] refl refl refl refl

abbrev requests : BaseMetric ℕ
requests = record {
  vals = [];
  desc = record {
    name = 114 ∷ [];
    description = [];
    unit_of = 49 ∷ [];
    metric_type = cumulative_int64;
    label_keys = record { key = 107 ∷ []; description = [] } ∷ [];
  };
  start = 5;
  keys = record { key = 107 ∷ []; description = [] } ∷ [];
  const_label_values = [];
  bm_type = Base.cumulative_int64;
}

abbrev calls : List (Call ℕ)
calls = gets_int64 (present_label ∷ []) ∷ incs_int64 (encode_label_vals (present_label ∷ [])) 7 ∷ []

abbrev requests' : BaseMetric ℕ
requests' = call_all whole requests calls

abbrev counted : BaseMetric ℕ
counted = record requests { vals = (1 ∷ [], int64_entry 3) ∷ [] }

read-inc_all_example :
    (e : Entry ℕ) × (lookup (1 ∷ []) (inc_all whole (1 ∷ []) counted (4 ∷ 0 ∷ 2 ∷ [])).vals
      ≡ some e)
    × (read_entry whole e 8 ≡ record { time = 8; value = int64_point 9 })
read-inc_all_example = read-inc_all whole (1 ∷ []) counted 3 8 (4 ∷ 0 ∷ 2 ∷ []) refl (omega arith)

-- Two goroutines load the same value; the second has to begin again.
abbrev add : ℕ → ℕ → ℕ
add a b = a + b

abbrev adders : List (Adder ℕ)
adders = record { val = 3; place = before } ∷ record { val = 4; place = before } ∷ []

abbrev final : State ℕ
final = record {
  cell = 13;
  adders = record { val = 3; place = done } ∷ record { val = 4; place = before } ∷ [];
}

interleaved : Reaches add (record { cell = 10; adders = adders }) final
interleaved =
    after _ _
      (after _ _
        (after _ _ (after _ _ here (loads 10 3 [] (record { val = 4; place = before } ∷ [])))
          (loads 10 4 (record { val = 3; place = loaded 10 } ∷ []) []))
        (swaps 10 3 10 [] (record { val = 4; place = loaded 10 } ∷ []) refl))
      (retries 13 4 10 (record { val = 3; place = done } ∷ []) [] (λ e. omega (arith, e)))

reaches-IsSum_example : IsSum add 10 final
reaches-IsSum_example = reaches-IsSum add 10 adders final (refl, (refl, tt)) interleaved

none_used : IsAllocated (new_registry {F = ℕ})
unfolding new_registry
none_used = tt

init_base_metric_lem_example :
    (Conflicts (new_registry {F = ℕ}) gauge_int64 (114 ∷ []) [] 3 none_used
      × (init_base_metric (new_registry {F = ℕ}) gauge_int64 (114 ∷ []) [] 3 ≡ none))
    ⊎ ((¬ Conflicts (new_registry {F = ℕ}) gauge_int64 (114 ∷ []) [] 3 none_used)
        × ((r' : Registry ℕ) × (init_base_metric (new_registry {F = ℕ}) gauge_int64 (114 ∷ []) [] 3
              ≡ some ((new_registry {F = ℕ}).next, r'))
            × Stored (new_registry {F = ℕ}) gauge_int64 (114 ∷ []) [] 3 none_used r'))
init_base_metric_lem_example =
    init_base_metric_lem new_registry gauge_int64 (114 ∷ []) [] 3 none_used
