-- ===== src/Stats/Measures.antt =====
-- stats/measure.go, measure_int64.go and measure_float64.go: the measures of a program. Two of the
-- same name share one descriptor, so a descriptor is known by its name.
use opencensus_go.Floats.{Floats}
use opencensus_go.Prelude.{
  ℕ, Bytes, bytes_eq, Bool, true, false, List, Option, none, some, lookup, insert,
}

pub record MeasureDescriptor : Type 0 where
  pub subs : Bool
  pub description : Bytes
  pub unit_of : Bytes

abbrev pub Measures : Type 0
Measures = List (Bytes × MeasureDescriptor)

pub data MeasureKind : Type 0 where
  int64_kind float64_kind : MeasureKind

-- A measure, with what its methods return.
pub record Measure : Type 0 where
  pub kind : MeasureKind
  pub name : Bytes
  pub description : Bytes
  pub unit_of : Bytes

unfoldable pub register_measure_handle :
    Measures → Bytes → Bytes → Bytes → Measures × MeasureDescriptor
register_measure_handle measures name desc unit = elim (lookup name measures) [
  | some stored ↦ (measures, stored)
  | none ↦
      let m : MeasureDescriptor = record { subs = false; description = desc; unit_of = unit } in
      (insert name m measures, m)
]

abbrev pub measure_of : MeasureKind → Bytes → Measures × MeasureDescriptor → Measures × Measure
measure_of kind name (measures, m) = (
  measures,
  record { kind = kind; name = name; description = m.description; unit_of = m.unit_of },
)

unfoldable pub int64_measure : Measures → Bytes → Bytes → Bytes → Measures × Measure
unfolding register_measure_handle
int64_measure measures name description unit =
    measure_of int64_kind name (register_measure_handle measures name description unit)

unfoldable pub float64_measure : Measures → Bytes → Bytes → Bytes → Measures × Measure
unfolding register_measure_handle
float64_measure measures name description unit =
    measure_of float64_kind name (register_measure_handle measures name description unit)

unfoldable pub subscribed : Measures → Bytes → Bool
subscribed measures name = elim (lookup name measures) [ none ↦ false | some m ↦ m.subs ]

-- `internal.SubscriptionReporter`; `none` is a panic, for a measure of no descriptor.
unfoldable pub subscribe : Measures → Bytes → Option Measures
subscribe measures name = elim (lookup name measures) [
  | none ↦ none
  | some m ↦ some (insert name (record m { subs = true }) measures)
]

pub record Measurement (F : Type 0) : Type 0 where
  pub v : F
  pub m : Measure

module _ {F : Type 0} where
  -- `M` of an int64 measure, with the value as a bit pattern.
  unfoldable pub m_int64 : Floats F → Measure → ℕ → Measurement F
  m_int64 floats m v = record { v = floats.of_int v; m = m }

  unfoldable pub m_float64 : Measure → F → Measurement F
  m_float64 m v = record { v = v; m = m }
