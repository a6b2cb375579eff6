-- ===== src/Trace/Span/Starting.antt =====
-- trace/trace.go: `StartSpan` and `StartSpanWithRemoteParent`. A context is the span it holds; the
-- clock, the identifiers and the address of the new span are arguments.
use opencensus_go.Trace.{SpanContext}
use opencensus_go.Trace.LruMap.{Lru}
use opencensus_go.Trace.Propagation.{is_zero}
use opencensus_go.Trace.Span.{Config, Sampler, Span, StartOptions, start_span_internal}
use opencensus_go.Trace.Span.Operations.{add_child}
use opencensus_go.Trace.SpanStore.{SpanStores}
use opencensus_go.Prelude.{
  ℕ, Bytes, Bool, true, false, not, List, [], ◌∷◌, Option, none, some, replicate,
}

abbrev pub StartOption : Type 0
StartOption = StartOptions → StartOptions

unfoldable pub with_span_kind : ℕ → StartOption
with_span_kind span_kind = λ o. record o { span_kind = span_kind }

unfoldable pub with_sampler : Sampler → StartOption
with_sampler sampler = λ o. record o { sampler = some sampler }

unfoldable pub apply_options : List StartOption → StartOptions → StartOptions
apply_options [] opts = opts
apply_options (op ∷ o) opts = apply_options o (op opts)

abbrev no_options : StartOptions
no_options = record { sampler = none; span_kind = 0 }

abbrev zero_context : SpanContext
zero_context = record {
  trace_id = replicate 16 0;
  span_id = replicate 8 0;
  trace_options = 0;
  tracestate = none;
}

-- What a start takes from outside.
pub record Given : Type 0 where
  pub local_span_store : Bool
  pub ptr : ℕ
  pub now : ℕ
  pub new_trace_id : Bytes
  pub new_span_id : Bytes
  -- The function of the new task of the execution tracer.
  pub task_end : ℕ

module _ {C : Type 0} (lru : Lru C) where
  abbrev start :
      Config
      → SpanStores
      → Given
      → Bytes
      → SpanContext
      → Bool
      → List StartOption
      → SpanStores × Span C
  start cfg stores given name parent remote_parent o =
      let (stores', s) =
        start_span_internal lru cfg given.local_span_store stores given.ptr given.now
          given.new_trace_id given.new_span_id name (not (is_zero parent)) parent remote_parent
          (apply_options o no_options) in
      (stores', record s { execution_tracer_task_end = some given.task_end })

  abbrev context_of : Option (Span C) → SpanContext
  context_of none = zero_context
  context_of (some p) = p.span_context

  -- The span of the context counts its child; `none` is a panic.
  abbrev with_child : Option (Span C) → Option (Option (Span C))
  with_child none = some none
  with_child (some p) = elim (add_child p) [ none ↦ none | some p' ↦ some (some p') ]

  -- The span of the context, the stores, and the new span.
  unfoldable pub start_span :
      Config
      → SpanStores
      → Given
      → Option (Span C)
      → Bytes
      → List StartOption
      → Option (Option (Span C) × SpanStores × Span C)
  unfolding start_span_internal is_zero apply_options add_child
  start_span cfg stores given ctx name o = elim (with_child ctx) [
    | none ↦ none
    | some parent ↦
        let (stores', s) = start cfg stores given name (context_of ctx) false o in
        some (parent, stores', s)
  ]

  unfoldable pub start_span_with_remote_parent :
      Config → SpanStores → Given → Bytes → SpanContext → List StartOption → SpanStores × Span C
  unfolding start_span_internal is_zero apply_options
  start_span_with_remote_parent cfg stores given name parent o =
      start cfg stores given name parent true o
