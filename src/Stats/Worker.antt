-- ===== src/Stats/Worker.antt =====
-- stats/view/worker.go, worker_commands.go and the views' side of view.go: the worker that serves
-- the commands one by one. A `viewInternal` is known by its address, a number, under which `heap`
-- keeps it: the worker's views and the sets of its measures share it. The clock is an argument, the
-- timer is its period, and the calls of exporters are results. `none` is a panic.
pub mod Invariant
pub mod Registry
pub mod Serve
mod Examples
use opencensus_go.Floats.{Floats}
use opencensus_go.Metric.{Descriptor, Metric}
use opencensus_go.Resource.{Resource}
use opencensus_go.Tag.{Map}
use opencensus_go.Stats.AggregationData.{Attachments, Sample}
use opencensus_go.Stats.Measures.{Measures, Measurement}
use opencensus_go.Stats.Measures
use opencensus_go.Stats.Views.{
  View, Canonical, Outcome, Error, different_view, not_registered, not_subscribed, canonicalize,
  same,
}
use opencensus_go.Stats.Views
use opencensus_go.Stats.Collector.{Signatures, Row, add_sample, encode_with_keys, collected_rows}
use opencensus_go.Stats.ViewToMetric.{
  Collected, aggregator, view_to_metric_descriptor, view_to_metric,
}
use opencensus_go.Prelude.{
  ℕ, ◌+◌, ◌*◌, ◌^◌, Bytes, bytes_eq, nat_eq, ◌==◌, List, [], ◌∷◌, ◌++◌, Bool, true, false, Option,
  none, some, lookup, insert, erase, ℤ, pos, negsuc, leb, if◌then◌else◌,
}

pub record ViewInternal (F : Type 0) : Type 0 where
  pub view : Canonical F
  pub subscribed : Bool
  pub signatures : Signatures (Collected F)
  pub metric_descriptor : Descriptor

pub record Worker (F : Type 0) : Type 0 where
  pub measures : List (Bytes × List (ℕ × Unit {0}))
  pub views : List (Bytes × ℕ)
  pub view_start_times : List (ℕ × ℕ)
  pub heap : List (ℕ × ViewInternal F)
  pub next : ℕ
  pub period : ℕ
  pub r : Option Resource
  pub exporters : List (ℕ × Unit {0})

-- `Data`, and a call of `ExportView`.
pub record ViewData (F : Type 0) : Type 0 where
  pub view : Canonical F
  pub start : ℕ
  pub end : ℕ
  pub rows : List (Row (Collected F))

pub record Export (F : Type 0) : Type 0 where
  pub exporter : ℕ
  pub view_data : ViewData F

-- 10 seconds, in nanoseconds.
abbrev pub default_reporting_duration : ℕ
default_reporting_duration = 10 * 10 ^ 9

-- The set of a measure, which is empty for a new one.
abbrev pub views_of : Bytes → List (Bytes × List (ℕ × Unit {0})) → List (ℕ × Unit {0})
views_of name measures = elim (lookup name measures) [ none ↦ [] | some views ↦ views ]

abbrev or_zero : Option ℕ → ℕ
or_zero none = 0
or_zero (some t) = t

-- The first loop of `handleCommand`: the first error ends it.
unfoldable pub canonicalize_all :
    {F : Type 0} → Floats F → List (View F) → (List (Canonical F)) × Option Error
unfolding canonicalize
canonicalize_all floats [] = ([], none)
canonicalize_all floats (v ∷ vs) =
    let rest = canonicalize_all floats vs in
    elim (canonicalize floats v) [ Views.err e ↦ ([], some e) | Views.ok c ↦ (c ∷ rest.0, rest.1) ]

module _ {F : Type 0} where
  unfoldable pub new_meter : Worker F
  new_meter = record {
    measures = [];
    views = [];
    view_start_times = [];
    heap = [];
    next = 0;
    period = default_reporting_duration;
    r = none;
    exporters = [];
  }

  unfoldable pub get_measure_ref : Worker F → Bytes → Worker F
  get_measure_ref w name = record w { measures = insert name (views_of name w.measures) w.measures }

  unfoldable pub new_view_internal : Canonical F → Option (ViewInternal F)
  unfolding view_to_metric_descriptor
  new_view_internal v = elim (view_to_metric_descriptor v) [
    | none ↦ none
    | some desc ↦
        some (record { view = v; subscribed = false; signatures = []; metric_descriptor = desc })
  ]

  -- The view is new: it is put under its name and into the set of its measure.
  unfoldable pub add_view : Worker F → ViewInternal F → ℕ → Worker F
  unfolding get_measure_ref
  add_view w vi now =
      let x = w.next in
      let name = vi.view.measure.name in
      let ref = get_measure_ref w name in
      record ref {
        views = insert vi.view.name x w.views;
        view_start_times = insert x now w.view_start_times;
        measures = insert name (insert x tt (views_of name w.measures)) ref.measures;
        heap = insert x vi w.heap;
        next = x + 1;
      }

  -- The address of the view, or `none` for the error that another one has its name.
  unfoldable pub try_register_view :
      Floats F → Worker F → Canonical F → ℕ → Option (Worker F × Option ℕ)
  unfolding new_view_internal add_view same
  try_register_view floats w v now = elim (new_view_internal v) [
    | none ↦ none
    | some vi ↦ elim (lookup v.name w.views) [
      | none ↦ some (add_view w vi now, some w.next)
      | some x ↦ elim (lookup x w.heap) [
        | none ↦ none
        | some old ↦ some (w, if same floats old.view v then some x else none)
      ]
    ]
  ]

  -- A change of the view at an address.
  abbrev pub change : ℕ → (ViewInternal F → ViewInternal F) → Worker F → Worker F
  change x f w = elim (lookup x w.heap) [
    | none ↦ w
    | some vi ↦ record w { heap = insert x (f vi) w.heap }
  ]

  unfoldable pub subscribe : ℕ → Worker F → Worker F
  subscribe x w = change x (λ vi. record vi { subscribed = true }) w

  -- The second loop; the last result is whether some view was refused.
  unfoldable pub register_all :
      Floats F → Worker F → Measures → List (Canonical F) → ℕ → Option (Worker F × Measures × Bool)
  unfolding try_register_view subscribe Measures.subscribe
  register_all floats w measures [] now = some (w, measures, false)
  register_all floats w measures (v ∷ vs) now = elim (try_register_view floats w v now) [
    | none ↦ none
    | some (w', none) ↦ elim (register_all floats w' measures vs now) [
      | none ↦ none
      | some (done, measures', _) ↦ some (done, measures', true)
    ]
    | some (w', some x) ↦ elim (Measures.subscribe measures v.measure.name) [
      | none ↦ none
      | some measures' ↦ register_all floats (subscribe x w') measures' vs now
    ]
  ]

  unfoldable pub handle_register :
      Floats F
      → Worker F
      → Measures
      → List (View F)
      → ℕ
      → Option (Worker F × Measures × Option Error)
  unfolding canonicalize_all register_all
  handle_register floats w measures vs now =
      let checked = canonicalize_all floats vs in
      elim checked.1 [
        | some e ↦ some (w, measures, some e)
        | none ↦ elim (register_all floats w measures checked.0 now) [
          | none ↦ none
          | some (w', measures', refused) ↦
              some (w', measures', if refused then some different_view else none)
        ]
      ]

  abbrev exports : List (ℕ × Unit {0}) → ViewData F → List (Export F)
  exports [] view_data = []
  exports ((e, _) ∷ es) view_data =
      record { exporter = e; view_data = view_data } ∷ exports es view_data

  -- What `reportView` hands to each exporter.
  unfoldable pub report_view : Worker F → ℕ → ViewInternal F → ℕ → Option (List (Export F))
  unfolding collected_rows
  report_view w x vi now =
      let sent : Option (List (Export F)) = elim (collected_rows vi.signatures vi.view.tag_keys) [
        | none ↦ none
        | some rows ↦ some (
            exports w.exporters (record {
              view = vi.view;
              start = or_zero (lookup x w.view_start_times);
              end = now;
              rows = rows;
            }))
      ] in
      if vi.subscribed then sent else some []

  unfoldable pub report_views : Worker F → List (Bytes × ℕ) → ℕ → Option (List (Export F))
  unfolding report_view
  report_views w [] now = some []
  report_views w ((name, x) ∷ views) now = elim (lookup x w.heap) [
    | none ↦ none
    | some vi ↦ elim (report_view w x vi now) [
      | none ↦ none
      | some sent ↦ elim (report_views w views now) [
        | none ↦ none
        | some rest ↦ some (sent ++ rest)
      ]
    ]
  ]

  unfoldable pub report_usage : Worker F → ℕ → Option (List (Export F))
  unfolding report_views
  report_usage w now = report_views w w.views now

  unfoldable pub unregister_view : Worker F → ℕ → Canonical F → Worker F
  unregister_view w x v = record w {
    views = erase v.name w.views;
    view_start_times = erase x w.view_start_times;
    measures = elim (lookup v.measure.name w.measures) [
      | none ↦ w.measures
      | some views ↦ insert v.measure.name (erase x views) w.measures
    ];
  }

  -- `unsubscribe` and `clearRows`: no other subscription is left.
  unfoldable pub unsubscribe : ℕ → Worker F → Worker F
  unsubscribe x w = change x (λ vi. record vi { subscribed = false; signatures = [] }) w

  -- Pending data are reported first.
  unfoldable pub unregister_name : Worker F → Bytes → ℕ → Option (Worker F × List (Export F))
  unfolding report_view unregister_view unsubscribe
  unregister_name w name now = elim (lookup name w.views) [
    | none ↦ some (w, [])
    | some x ↦ elim (lookup x w.heap) [
      | none ↦ none
      | some vi ↦ elim (report_view w x vi now) [
        | none ↦ none
        | some sent ↦ some (unregister_view (unsubscribe x w) x vi.view, sent)
      ]
    ]
  ]

  unfoldable pub handle_unregister : Worker F → List Bytes → ℕ → Option (Worker F × List (Export F))
  unfolding unregister_name
  handle_unregister w [] now = some (w, [])
  handle_unregister w (name ∷ names) now = elim (unregister_name w name now) [
    | none ↦ none
    | some (w', sent) ↦ elim (handle_unregister w' names now) [
      | none ↦ none
      | some (done, rest) ↦ some (done, sent ++ rest)
    ]
  ]

  unfoldable pub handle_get_view : Worker F → Bytes → Option (Canonical F)
  handle_get_view w name = elim (lookup name w.views) [
    | none ↦ none
    | some x ↦ elim (lookup x w.heap) [ none ↦ none | some vi ↦ some vi.view ]
  ]

  -- The rows of a view, or an error.
  unfoldable pub handle_retrieve_data :
      Worker F → Bytes → Option ((List (Row (Collected F))) × Option Error)
  unfolding collected_rows
  handle_retrieve_data w name = elim (lookup name w.views) [
    | none ↦ some ([], some not_registered)
    | some x ↦ elim (lookup x w.heap) [
      | none ↦ none
      | some vi ↦
          let rows : Option ((List (Row (Collected F))) × Option Error) =
            elim (collected_rows vi.signatures vi.view.tag_keys) [
              | none ↦ none
              | some rows ↦ some (rows, none)
            ] in
          if vi.subscribed then rows else some ([], some not_subscribed)
    ]
  ]

  -- A duration that is not positive stands for the default.
  unfoldable pub handle_set_reporting_period : Worker F → ℤ → Worker F
  handle_set_reporting_period w (negsuc d) = record w { period = default_reporting_duration }
  handle_set_reporting_period w (pos d) = record w {
    period = if leb d 0 then default_reporting_duration else d;
  }

  unfoldable pub register_exporter : Worker F → ℕ → Worker F
  register_exporter w e = record w { exporters = insert e tt w.exporters }

  unfoldable pub unregister_exporter : Worker F → ℕ → Worker F
  unregister_exporter w e = record w { exporters = erase e w.exporters }

  unfoldable pub set_resource : Worker F → Option Resource → Worker F
  set_resource w r = record w { r = r }

module _ {F : Type 0} (floats : Floats F) where
  unfoldable pub sample_view : Map → Sample F → ℕ → ViewInternal F → ViewInternal F
  unfolding add_sample encode_with_keys aggregator
  sample_view m s t vi =
      if vi.subscribed
      then record vi {
        signatures =
            add_sample (aggregator floats vi.view.aggregation) vi.signatures
              (encode_with_keys m vi.view.tag_keys) s t;
      }
      else vi

  unfoldable pub sample_views : Map → Sample F → ℕ → List (ℕ × Unit {0}) → Worker F → Worker F
  unfolding sample_view
  sample_views m s t [] w = w
  sample_views m s t ((x, _) ∷ xs) w = sample_views m s t xs (change x (sample_view m s t) w)

  -- The loop over the measurements; `none` is the zero one, of no measure.
  unfoldable pub handle_record :
      Map → List (Option (Measurement F)) → Attachments → ℕ → Worker F → Worker F
  unfolding sample_views get_measure_ref
  handle_record m [] attachments t w = w
  handle_record m (none ∷ ms) attachments t w = handle_record m ms attachments t w
  handle_record m (some e ∷ ms) attachments t w =
      let s : Sample F = record { value = e.v; attachments = attachments } in
      handle_record m ms attachments t
        (sample_views m s t (views_of e.m.name w.measures) (get_measure_ref w e.m.name))

  unfoldable pub to_metric : Worker F → ViewInternal F → ℕ → Option (Option (Metric F))
  unfolding view_to_metric
  to_metric w vi now =
      let metric = view_to_metric floats vi.view vi.metric_descriptor vi.signatures w.r now in
      if vi.subscribed then metric else some none

  -- The loop of `Read`.
  unfoldable pub read_views : Worker F → List (Bytes × ℕ) → ℕ → Option (List (Metric F))
  unfolding to_metric
  read_views w [] now = some []
  read_views w ((name, x) ∷ views) now = elim (lookup x w.heap) [
    | none ↦ none
    | some vi ↦ elim (to_metric w vi now) [
      | none ↦ none
      | some metric ↦ elim (read_views w views now) [
        | none ↦ none
        | some metrics ↦ elim metric [ none ↦ some metrics | some m ↦ some (m ∷ metrics) ]
      ]
    ]
  ]

  unfoldable pub read : Worker F → ℕ → Option (List (Metric F))
  unfolding read_views
  read w now = read_views w w.views now
