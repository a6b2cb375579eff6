-- ===== src/Metric/Reader.antt =====
-- metric/metricexport/reader.go: the reader of all producers, and the one that reads in intervals.
-- A nil reader or exporter is `none`; an exporter is known by a number, and a duration is an int64.
-- The span around an export is left out, and so is the sampler for it.
use opencensus_go.Metric.{Metric}
use opencensus_go.Metric.Manager.{Manager, get_all}
use opencensus_go.Prelude.{
  ℕ, ◌*◌, ◌^◌, Bytes, List, [], ◌∷◌, ◌++◌, Option, none, some, ℤ, pos, negsuc, ltb, ◌==◌, nat_eq,
  if◌then◌else◌,
}

abbrev pub default_reporting_duration : ℕ
default_reporting_duration = 60 * 10 ^ 9

abbrev pub minimum_reporting_duration : ℕ
minimum_reporting_duration = 10 ^ 9

-- "ExportMetrics"
abbrev pub default_span_name : Bytes
default_span_name =
    0x45 ∷ 0x78 ∷ 0x70 ∷ 0x6f ∷ 0x72 ∷ 0x74 ∷ 0x4d ∷ 0x65 ∷ 0x74 ∷ 0x72 ∷ 0x69 ∷ 0x63 ∷ 0x73 ∷ []

pub record ReaderOptions : Type 0 where
  pub span_name : Bytes

abbrev pub ReaderOption : Type 0
ReaderOption = ReaderOptions → ReaderOptions

unfoldable pub with_span_name : Bytes → ReaderOption
with_span_name span_name = λ o. record o { span_name = span_name }

pub record Reader : Type 0 where
  pub span_name : Bytes

unfoldable pub apply_options : List ReaderOption → ReaderOptions → ReaderOptions
apply_options [] opts = opts
apply_options (op ∷ o) opts = apply_options o (op opts)

unfoldable pub new_reader : List ReaderOption → Reader
unfolding apply_options
new_reader o = elim (apply_options o (record { span_name = [] })).span_name [
  | [] ↦ record { span_name = default_span_name }
  | c ∷ cs ↦ record { span_name = c ∷ cs }
]

-- `ticker` is the period of the timer, and `none` where `quit` is nil.
pub record IntervalReader : Type 0 where
  pub reporting_interval : ℤ
  pub exporter : ℕ
  pub reader : Reader
  pub ticker : Option ℕ

pub data Error : Type 0 where
  exporter_nil reader_nil interval_reader_nil reporting_interval_too_low already_started : Error

pub data Result (A : Type 0) : Type 0 where
  ok : A → Result A
  err : Error → Result A

unfoldable pub new_interval_reader : Option Reader → Option ℕ → Result IntervalReader
new_interval_reader reader none = err exporter_nil
new_interval_reader none (some exporter) = err reader_nil
new_interval_reader (some reader) (some exporter) =
    ok (record { reporting_interval = pos 0; exporter = exporter; reader = reader; ticker = none })

-- The interval that is asked for; 0 is the default.
abbrev interval_of : ℤ → Option ℕ
interval_of (pos n) =
    if n == 0
    then some default_reporting_duration
    else (if ltb n minimum_reporting_duration then none else some n)
interval_of (negsuc n) = none

unfoldable pub start : Option IntervalReader → Result IntervalReader
start none = err interval_reader_nil
start (some ir) = elim (interval_of ir.reporting_interval) [
  | none ↦ err reporting_interval_too_low
  | some interval ↦ elim ir.ticker [
    | some running ↦ err already_started
    | none ↦ ok (record ir { ticker = some interval })
  ]
]

unfoldable pub stop : Option IntervalReader → Option IntervalReader
stop none = none
stop (some ir) = some (record ir { ticker = none })

module _ {F : Type 0} (read_of : ℕ → List (Metric F)) where
  -- The loop over the producers.
  unfoldable pub read_producers : List ℕ → List (Metric F)
  read_producers [] = []
  read_producers (producer ∷ producers) = read_of producer ++ read_producers producers

  -- What the exporter is given.
  unfoldable pub read_and_export : Manager → List (Metric F)
  unfolding read_producers get_all
  read_and_export pm = read_producers (get_all pm)

  -- Nothing is exported while the reader runs.
  unfoldable pub flush : IntervalReader → Manager → Option (List (Metric F))
  unfolding read_and_export
  flush ir pm = elim ir.ticker [ some running ↦ none | none ↦ some (read_and_export pm) ]
