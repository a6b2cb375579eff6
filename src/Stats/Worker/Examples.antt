-- ===== src/Stats/Worker/Examples.antt =====
-- A worker that registers one view.
use opencensus_go.Floats.Whole.{whole}
use opencensus_go.Metric.{Descriptor, cumulative_distribution}
use opencensus_go.Stats.Aggregation.{agg_distribution}
use opencensus_go.Stats.Measures.{Measures, Measure, int64_kind, subscribed}
use opencensus_go.Stats.Measures
use opencensus_go.Stats.ViewToMetric.{view_to_metric_descriptor}
use opencensus_go.Stats.Views.{View, Canonical, canonicalize}
use opencensus_go.Stats.Worker.{
  Worker, new_meter, handle_register, handle_get_view, views_of, default_reporting_duration,
}
use opencensus_go.Stats.Worker.Invariant.{IsConsistent, new_meter-IsConsistent}
use opencensus_go.Stats.Worker.Registry.{handle_register_lem}
use opencensus_go.Stats.Worker.Serve.{registers, finds, ticks, Event, serve, serve-IsConsistent}
use opencensus_go.Prelude.{
  ℕ, ◌≡◌, refl, Bytes, bytes_eq, nat_eq, [], ◌∷◌, List, some, none, true, false, lookup,
}

abbrev latency : Bytes
latency = 0x6c ∷ []

abbrev measure : Measure
measure = record { kind = int64_kind; name = latency; description = []; unit_of = 0x31 ∷ [] }

-- The bounds 5 and 0, which are not sorted and have a zero.
abbrev view : View ℕ
view = record {
  name = [];
  description = [];
  tag_keys = (0x62 ∷ []) ∷ (0x61 ∷ []) ∷ [];
  measure = some measure;
  aggregation = some (record {
    address = 7;
    agg_type = agg_distribution;
    buckets = 1005 ∷ 1000 ∷ [];
    has_new_data = true;
  });
}

abbrev canonical_view : Canonical ℕ
canonical_view = record {
  name = latency;
  description = [];
  tag_keys = (0x61 ∷ []) ∷ (0x62 ∷ []) ∷ [];
  measure = measure;
  aggregation = record {
    address = 7;
    agg_type = agg_distribution;
    buckets = 1005 ∷ [];
    has_new_data = true;
  };
}

abbrev desc : Descriptor
desc = record {
  name = latency;
  description = [];
  unit_of = 0x31 ∷ [];
  metric_type = cumulative_distribution;
  label_keys =
      record { key = 0x61 ∷ []; description = [] }
      ∷ record { key = 0x62 ∷ []; description = [] }
      ∷ [];
}

abbrev measures : Measures
measures = (latency, record { subs = false; description = []; unit_of = 0x31 ∷ [] }) ∷ []

abbrev measures' : Measures
measures' = (latency, record { subs = true; description = []; unit_of = 0x31 ∷ [] }) ∷ []

abbrev fresh : Worker ℕ
fresh = new_meter

handle_register_lem_example :
    (w' : Worker ℕ) × (handle_register whole fresh measures (view ∷ []) 7
      ≡ some (w', measures', none))
    × (handle_get_view w' latency ≡ some canonical_view)
    × (lookup fresh.next w'.heap
        ≡ some (record {
          view = canonical_view;
          subscribed = true;
          signatures = [];
          metric_descriptor = desc;
        }))
    × (lookup fresh.next (views_of latency w'.measures) ≡ some tt)
    × (subscribed measures' latency ≡ true)
unfolding canonicalize new_meter view_to_metric_descriptor Measures.subscribe
handle_register_lem_example =
    handle_register_lem whole fresh measures measures' view canonical_view desc 7 refl refl refl
      refl

abbrev events : List (Event ℕ)
events = registers (view ∷ []) 7 ∷ finds latency ∷ ticks 9 ∷ []

-- The worker behind the events.
abbrev served : Worker ℕ
served = record {
  measures = (latency, (0, tt) ∷ []) ∷ [];
  views = (latency, 0) ∷ [];
  view_start_times = (0, 7) ∷ [];
  heap =
      (
        0,
        record {
          view = canonical_view;
          subscribed = true;
          signatures = [];
          metric_descriptor = desc;
        },
      )
      ∷ [];
  next = 1;
  period = default_reporting_duration;
  r = none;
  exporters = [];
}

serve-IsConsistent_example : IsConsistent served
unfolding serve canonicalize new_meter view_to_metric_descriptor Measures.subscribe handle_register
serve-IsConsistent_example =
    serve-IsConsistent whole fresh measures events served measures' [] new_meter-IsConsistent refl
