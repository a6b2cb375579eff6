-- ===== src/Trace/Span/Finish.antt =====
-- The end of a span: `makeSpanData` and `End`.
pub mod Once
use opencensus_go.Trace.{
  SpanContext, SpanData, Attribute, Annotation, MessageEvent, MessageEventType, unspecified, sent,
  recv, Link, Status, is_sampled,
}
use opencensus_go.Trace.EvictedQueue.{EvictedQueue, new_evicted_queue}
use opencensus_go.Trace.EvictedQueue
use opencensus_go.Trace.LruMap.{Lru, LruMap, new_lru_map, to_attribute_map}
use opencensus_go.Trace.LruMap
use opencensus_go.Trace.SpanStore.{
  SpanStore, SpanStores, span_store_for_name_create_if_new, add_active, finished,
}
use opencensus_go.Prelude.{
  ℕ, zero, suc, ◌+◌, ◌-◌, ◌%◌, Bytes, bytes_eq, ℤ, pos, nat_eq, ◌==◌, List, [], ◌∷◌, map, Bool,
  true, false, not, ◌&&◌, ◌||◌, Option, none, some, ltb, length, lookup, insert, if◌then◌else◌,
}
use opencensus_go.Trace.Span.{Recorded, Span}

-- `finished` on the store of the span, which a name stands for.
unfoldable pub finish : SpanStores → Option Bytes → ℕ → SpanData → SpanStores
unfolding finished
finish stores none ptr sd = stores
finish stores (some name) ptr sd = elim (lookup name stores) [
  | none ↦ stores
  | some store ↦ insert name (finished store ptr sd) stores
]

module _ {C : Type 0} (lru : Lru C) where
  -- `makeSpanData`
  unfoldable pub make_span_data : Recorded C → SpanData
  unfolding to_attribute_map
  make_span_data r =
      let some_attributes = not (lru.len r.lru_attributes.cache == 0) in
      let some_annotations = not (length r.annotations.queue == 0) in
      let some_events = not (length r.message_events.queue == 0) in
      let some_links = not (length r.links.queue == 0) in
      record r.span_data {
        attributes =
            if some_attributes
            then map (λ e. record { key = e.0; value = e.1 })
                (to_attribute_map lru r.lru_attributes.cache_keys r.lru_attributes.cache)
            else r.span_data.attributes;
        dropped_attribute_count =
            if some_attributes
            then r.lru_attributes.dropped_count
            else r.span_data.dropped_attribute_count;
        annotations = if some_annotations then r.annotations.queue else r.span_data.annotations;
        dropped_annotation_count =
            if some_annotations
            then r.annotations.dropped_count
            else r.span_data.dropped_annotation_count;
        message_events = if some_events then r.message_events.queue else r.span_data.message_events;
        dropped_message_event_count =
            if some_events
            then r.message_events.dropped_count
            else r.span_data.dropped_message_event_count;
        links = if some_links then r.links.queue else r.span_data.links;
        dropped_link_count =
            if some_links then r.links.dropped_count else r.span_data.dropped_link_count;
      }

  unfoldable pub end_recorded :
      SpanStores → ℕ → ℕ → ℕ → Span C → Recorded C → SpanStores × Span C × Option SpanData
  unfolding make_span_data finish
  end_recorded stores exporters ptr end_time s r =
      let must_export = is_sampled s.span_context && ltb 0 exporters in
      let stored : Bool = elim r.span_store [ none ↦ false | some name ↦ true ] in
      let sd = record (make_span_data r) { end_time = end_time } in
      (
        if stored || must_export then finish stores r.span_store ptr sd else stores,
        record s { ended = true },
        if must_export then some sd else none,
      )

  -- The part of `End` behind the call for the execution tracer.
  unfoldable pub end_span : SpanStores → ℕ → ℕ → ℕ → Span C → SpanStores × Span C × Option SpanData
  unfolding end_recorded
  end_span stores exporters ptr end_time s = elim s.recorded [
    | none ↦ (stores, s, none)
    | some r ↦ if s.ended then (stores, s, none) else end_recorded stores exporters ptr end_time s r
  ]

  -- `End`: the stores, the span, the data that each of the registered exporters gets, and the
  -- function of the execution tracer that is called.
  unfoldable pub end :
      SpanStores → ℕ → ℕ → ℕ → Span C → SpanStores × Span C × Option SpanData × Option ℕ
  unfolding end_span
  end stores exporters ptr end_time s =
      let (stores', s', exported) = end_span stores exporters ptr end_time s in
      (stores', s', exported, s.execution_tracer_task_end)
