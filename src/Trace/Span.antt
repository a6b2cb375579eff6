-- ===== src/Trace/Span.antt =====
-- trace/trace.go: the life of a span. The locks are left out: a call is one critical section. The
-- clock, the generated identifiers and the address of a new span are arguments.
pub mod Decision
pub mod Operations
pub mod Finish
pub mod Stores
pub mod Starting
pub mod Active
mod Examples
use opencensus_go.Trace.{
  SpanContext, SpanData, Attribute, Annotation, MessageEvent, MessageEventType, unspecified, sent,
  recv, Link, Status, is_sampled,
}
use opencensus_go.Trace.EvictedQueue.{EvictedQueue, new_evicted_queue}
use opencensus_go.Trace.EvictedQueue
use opencensus_go.Trace.LruMap.{Lru, LruMap, new_lru_map, to_attribute_map}
use opencensus_go.Trace.LruMap
use opencensus_go.Trace.SpanStore.{
  SpanStore, SpanStores, span_store_for_name_create_if_new, add_active, finished,
}
use opencensus_go.Prelude.{
  ℕ, zero, suc, ◌+◌, ◌-◌, ◌%◌, Bytes, bytes_eq, ℤ, pos, nat_eq, ◌==◌, List, [], ◌∷◌, map, Bool,
  true, false, not, ◌&&◌, ◌||◌, Option, none, some, ltb, length, lookup, insert, if◌then◌else◌,
}

pub record SamplingParameters : Type 0 where
  pub parent_context : SpanContext
  pub trace_id : Bytes
  pub span_id : Bytes
  pub name : Bytes
  pub has_remote_parent : Bool

abbrev pub Sampler : Type 0
Sampler = SamplingParameters → Bool

pub record StartOptions : Type 0 where
  pub sampler : Option Sampler
  pub span_kind : ℕ

pub record Config : Type 0 where
  pub default_sampler : Sampler
  pub max_annotation_events_per_span : ℕ
  pub max_message_events_per_span : ℕ
  pub max_attributes_per_span : ℕ
  pub max_links_per_span : ℕ

-- The changes of `ApplyConfig`; its sampler may be nil.
pub record ConfigChange : Type 0 where
  pub default_sampler : Option Sampler
  pub max_annotation_events_per_span : ℤ
  pub max_message_events_per_span : ℤ
  pub max_attributes_per_span : ℤ
  pub max_links_per_span : ℤ

-- `if new > 0 { old = new }`
abbrev if_positive : ℤ → ℕ → ℕ
if_positive (pos (suc n)) old = suc n
if_positive n old = old

abbrev if_not_nil : Option Sampler → Sampler → Sampler
if_not_nil none old = old
if_not_nil (some sampler) old = sampler

abbrev pub is_given : Option Sampler → Bool
is_given none = false
is_given (some sampler) = true

unfoldable pub apply_config : Config → ConfigChange → Config
apply_config c cfg = record {
  default_sampler = if_not_nil cfg.default_sampler c.default_sampler;
  max_annotation_events_per_span =
      if_positive cfg.max_annotation_events_per_span c.max_annotation_events_per_span;
  max_message_events_per_span =
      if_positive cfg.max_message_events_per_span c.max_message_events_per_span;
  max_attributes_per_span = if_positive cfg.max_attributes_per_span c.max_attributes_per_span;
  max_links_per_span = if_positive cfg.max_links_per_span c.max_links_per_span;
}

-- The bit of the options that says whether the span is exported.
unfoldable pub set_is_sampled : SpanContext → Bool → SpanContext
set_is_sampled sc sampled =
    let cleared = sc.trace_options - sc.trace_options % 2 in
    record sc { trace_options = if sampled then cleared + 1 else cleared }

-- A span; `recorded` is `none` for a nil `data`, and so are the four containers that are set with it. The store
-- of a span is known by the name under which it was made. A function that ends a task of the
-- execution tracer is a number; a span that no start has returned yet has none.
pub record Recorded (C : Type 0) : Type 0 where
  pub span_data : SpanData
  pub lru_attributes : LruMap C
  pub annotations : EvictedQueue Annotation
  pub message_events : EvictedQueue MessageEvent
  pub links : EvictedQueue Link
  pub span_store : Option Bytes

pub record Span (C : Type 0) : Type 0 where
  pub span_context : SpanContext
  pub recorded : Option (Recorded C)
  pub ended : Bool
  pub execution_tracer_task_end : Option ℕ

abbrev pub is_recording_events : {C : Type 0} → Span C → Bool
is_recording_events s = elim s.recorded [ none ↦ false | some r ↦ true ]

-- The context of a new span: the parent's, with a new identifier and the sampler's decision.
unfoldable pub start_context :
    Config → StartOptions → Bytes → Bool → SpanContext → Bool → Bytes → Bytes → SpanContext
unfolding set_is_sampled
start_context cfg o name has_parent parent remote_parent new_trace_id new_span_id =
    let trace_id = if has_parent then parent.trace_id else new_trace_id in
    let sc = record parent { trace_id = trace_id; span_id = new_span_id } in
    let sampler = if_not_nil o.sampler cfg.default_sampler in
    if not has_parent || remote_parent || is_given o.sampler
    then set_is_sampled sc (
        sampler (record {
          parent_context = parent;
          trace_id = trace_id;
          span_id = new_span_id;
          name = name;
          has_remote_parent = remote_parent;
        }))
    else sc

abbrev zero_span_id : Bytes
zero_span_id = 0 ∷ 0 ∷ 0 ∷ 0 ∷ 0 ∷ 0 ∷ 0 ∷ 0 ∷ []

-- The data of a new span.
unfoldable pub start_data :
    StartOptions → Bytes → Bool → SpanContext → Bool → SpanContext → ℕ → SpanData
start_data o name has_parent parent remote_parent sc now = record {
  span_context = sc;
  parent_span_id = if has_parent then parent.span_id else zero_span_id;
  span_kind = o.span_kind;
  name = name;
  start_time = now;
  end_time = 0;
  attributes = [];
  annotations = [];
  message_events = [];
  status = record { code = pos 0; message = [] };
  links = [];
  has_remote_parent = remote_parent;
  dropped_attribute_count = 0;
  dropped_annotation_count = 0;
  dropped_message_event_count = 0;
  dropped_link_count = 0;
  child_span_count = 0;
}

module _ {C : Type 0} (lru : Lru C) where
  -- `startSpanInternal`: the span with the address `ptr`, and the stores.
  unfoldable pub start_span_internal :
      Config
      → Bool
      → SpanStores
      → ℕ
      → ℕ
      → Bytes
      → Bytes
      → Bytes
      → Bool
      → SpanContext
      → Bool
      → StartOptions
      → SpanStores × Span C
  unfolding start_context start_data new_lru_map new_evicted_queue span_store_for_name_create_if_new
      add_active
  start_span_internal cfg local_span_store stores ptr now new_trace_id new_span_id name has_parent
        parent remote_parent o =
      let sc = start_context cfg o name has_parent parent remote_parent new_trace_id new_span_id in
      let recorded : Recorded C = record {
        span_data = start_data o name has_parent parent remote_parent sc now;
        lru_attributes = new_lru_map lru cfg.max_attributes_per_span;
        annotations = new_evicted_queue cfg.max_annotation_events_per_span;
        message_events = new_evicted_queue cfg.max_message_events_per_span;
        links = new_evicted_queue cfg.max_links_per_span;
        span_store = if local_span_store then some name else none;
      } in
      if not local_span_store && not (is_sampled sc)
      then (
        stores,
        record {
          span_context = sc;
          recorded = none;
          ended = false;
          execution_tracer_task_end = none;
        },
      )
      else (
        if local_span_store
            then (let made = span_store_for_name_create_if_new stores name in
                insert name (add_active made.1 ptr) made.0)
            else stores,
        record {
          span_context = sc;
          recorded = some recorded;
          ended = false;
          execution_tracer_task_end = none;
        },
      )
