-- ===== src/Trace/SpanStore/Examples.antt =====
-- A store with two spans.
use opencensus_go.Trace.{SpanData}
use opencensus_go.Trace.SpanStore.{
  SpanStore, new_span_store, finished, resize_store, report_spans_by_latency, report_spans_by_error,
}
use opencensus_go.Trace.SpanStore.Invariant.{
  IsValid, new_span_store-IsValid, finished-IsValid, resize_store-IsValid,
}
use opencensus_go.Trace.SpanStore.Reports.{report_spans_by_error-code}
use opencensus_go.Prelude.{
  ℕ, ◌*◌, ◌≡◌, refl, [], ◌∷◌, some, none, false, ℤ, pos, ◌==◌, int_eq, nat_eq, All,
}

-- A span that lasts for a number of microseconds and ends with a code.
abbrev lasting : ℕ → ℤ → SpanData
lasting t code = record {
  span_context = record { trace_id = []; span_id = []; trace_options = 1; tracestate = none };
  parent_span_id = [];
  span_kind = 0;
  name = [];
  start_time = 0;
  end_time = t * 1000;
  attributes = [];
  annotations = [];
  message_events = [];
  status = record { code = code; message = [] };
  links = [];
  has_remote_parent = false;
  dropped_attribute_count = 0;
  dropped_annotation_count = 0;
  dropped_message_event_count = 0;
  dropped_link_count = 0;
  child_span_count = 0;
}

abbrev fresh : SpanStore
fresh = new_span_store 10 10

abbrev one_ok : SpanStore
one_ok = finished fresh 1 (lasting 50 (pos 0))

abbrev two : SpanStore
two = finished one_ok 2 (lasting 70 (pos 5))

one_ok-IsValid : IsValid 10 one_ok
one_ok-IsValid = finished-IsValid 10 fresh 1 (lasting 50 (pos 0)) (new_span_store-IsValid 10 10)

two-IsValid : IsValid 10 two
two-IsValid = finished-IsValid 10 one_ok 2 (lasting 70 (pos 5)) one_ok-IsValid

finished-IsValid_example : IsValid 10 (finished two 3 (lasting 5000 (pos 5)))
finished-IsValid_example = finished-IsValid 10 two 3 (lasting 5000 (pos 5)) two-IsValid

resize_store-IsValid_example :
    (s : SpanStore) × (resize_store two 1 0 ≡ some s)
    × IsValid 1 s
    × (s.max_spans_per_error_bucket ≡ 0)
    × (s.active ≡ two.active)
resize_store-IsValid_example = resize_store-IsValid 10 1 0 two two-IsValid

-- The run of the report: the first span is in it.
report_two : report_spans_by_latency two (pos 20_000) (pos 0) ≡ lasting 50 (pos 0) ∷ []
unfolding report_spans_by_latency finished new_span_store
report_two = refl

report_spans_by_error-code_example :
    All
      (λ sd.
        ((sd.status.code == pos 0) ≡ false) × ((pos 5 == pos 0) ≡ false → sd.status.code ≡ pos 5))
      (report_spans_by_error two (pos 5))
report_spans_by_error-code_example = report_spans_by_error-code 10 two (pos 5) two-IsValid
