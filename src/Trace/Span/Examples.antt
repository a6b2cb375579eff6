-- ===== src/Trace/Span/Examples.antt =====
-- A span from its start to its end, over a cache that never evicts.
use opencensus_go.Trace.{SpanContext, is_sampled}
use opencensus_go.Trace.LruMap.{Lru}
use opencensus_go.Trace.SpanStore.{SpanStores, BucketConfiguration, configure_bucket_sizes}
use opencensus_go.Trace.SpanStore.Names.{Usable}
use opencensus_go.Trace.Span.{Config, StartOptions, Span, start_span_internal, is_recording_events}
use opencensus_go.Trace.Span.Decision.{start_span_internal_lem}
use opencensus_go.Trace.Span.Operations.{Call, named, annotated, sends, call_all}
use opencensus_go.Trace.Span.Operations.Panics.{IsPositive, Returns, started_calls-Returns}
use opencensus_go.Trace.Span.Finish.{end}
use opencensus_go.Trace.Span.Finish.Once.{end_twice}
use opencensus_go.Trace.Span.Stores.{Reachable, started, ended, initial, after, reachable-Usable}
use opencensus_go.Prelude.{
  ◌/◌, Bytes, bytes_eq, List, [], ◌∷◌, none, some, true, false, pos, ◌≡◌, lookup, insert, length,
  arith,
}

abbrev table : Lru (List (Bytes × Bytes))
table = record {
  new = λ size. [];
  len = λ c. length c;
  add = λ key value c. (insert key value c, []);
  get = λ key c. (c, lookup key c);
}

abbrev default_config : Config
default_config = record {
  default_sampler = λ p. true;
  max_annotation_events_per_span = 32;
  max_message_events_per_span = 128;
  max_attributes_per_span = 32;
  max_links_per_span = 32;
}

abbrev no_parent : SpanContext
no_parent = record { trace_id = []; span_id = []; trace_options = 0; tracestate = none }

abbrev no_options : StartOptions
no_options = record { sampler = none; span_kind = 0 }

abbrev trace_of : Bytes
trace_of = 1 ∷ []

abbrev work : Bytes
work = 0x77 ∷ []

abbrev root : SpanStores × Span (List (Bytes × Bytes))
root =
    start_span_internal table default_config true [] 1 1000 trace_of trace_of work false no_parent
      false no_options

start_span_internal_lem_example :
    (is_sampled root.1.span_context ≡ true)
    × (root.1.span_context.trace_id ≡ trace_of)
    × (root.1.span_context.span_id ≡ trace_of)
    × (root.1.span_context.trace_options / 2 ≡ 0)
    × (is_recording_events root.1 ≡ true)
start_span_internal_lem_example =
    start_span_internal_lem table default_config true [] 1 1000 trace_of trace_of work false
      no_parent false no_options

-- The span with a task of the execution tracer, as `StartSpan` returns it.
abbrev traced : Span (List (Bytes × Bytes))
traced = record root.1 { execution_tracer_task_end = some 8 }

end_twice_example :
    let once = end table root.0 1 1 2000 traced in
    end table once.0 1 1 3000 once.1 ≡ (once.0, once.1, none, some 8)
end_twice_example = end_twice table 1 root.0 1 1 2000 3000 traced

default-IsPositive : IsPositive default_config
default-IsPositive = (omega arith, omega arith, omega arith)

abbrev calls : List Call
calls = annotated 1500 [] work ∷ named trace_of ∷ sends 1600 (pos 1) (pos 10) (pos 5) ∷ []

started_calls-Returns_example : Returns (call_all table root.1 calls)
started_calls-Returns_example =
    started_calls-Returns table default_config true [] 1 1000 trace_of trace_of work false no_parent
      false no_options calls default-IsPositive

abbrev finished_stores : SpanStores
finished_stores = (end table root.0 0 1 2000 root.1).0

finished-Reachable : Reachable table finished_stores
finished-Reachable =
    after root.0 finished_stores
      (after [] root.0 initial (
        started default_config true [] 1 1000 trace_of trace_of work false no_parent false
          no_options))
      (ended root.0 0 1 2000 root.1)

reachable-Usable_example :
    Usable finished_stores
    × ((bcs : List BucketConfiguration)
        → (stores : SpanStores) × (configure_bucket_sizes finished_stores bcs ≡ some stores))
reachable-Usable_example = reachable-Usable table finished_stores finished-Reachable
