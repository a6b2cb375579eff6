-- ===== src/Trace/Span/Operations.antt =====
-- The calls on a span while it lasts. `none` is a panic; a panic of an evicted queue of no
-- capacity is the only one.
pub mod Panics
use opencensus_go.Trace.{
  SpanContext, SpanData, Attribute, Annotation, MessageEvent, MessageEventType, unspecified, sent,
  recv, Link, Status, is_sampled,
}
use opencensus_go.Trace.EvictedQueue.{EvictedQueue, new_evicted_queue}
use opencensus_go.Trace.EvictedQueue
use opencensus_go.Trace.LruMap.{Lru, LruMap, new_lru_map, to_attribute_map}
use opencensus_go.Trace.LruMap
use opencensus_go.Trace.SpanStore.{
  SpanStore, SpanStores, span_store_for_name_create_if_new, add_active, finished,
}
use opencensus_go.Prelude.{
  ℕ, zero, suc, ◌+◌, ◌-◌, ◌%◌, Bytes, bytes_eq, ℤ, pos, nat_eq, ◌==◌, List, [], ◌∷◌, map, Bool,
  true, false, not, ◌&&◌, ◌||◌, Option, none, some, ltb, length, lookup, insert, if◌then◌else◌,
}
use opencensus_go.Trace.Span.{Recorded, Span}

-- A call that changes a recorded span only; on any other span it does nothing.
abbrev pub on_recorded :
    {C : Type 0} → (Recorded C → Option (Recorded C)) → Span C → Option (Span C)
on_recorded f s = elim s.recorded [
  | none ↦ some s
  | some r ↦ elim (f r) [ none ↦ none | some r' ↦ some (record s { recorded = some r' }) ]
]

-- `am[attr.key] = attr.value` in the order of the attributes.
put : Attribute → List Attribute → List Attribute
put a [] = a ∷ []
put a (b ∷ bs) = let rest = put a bs in if b.key == a.key then a ∷ bs else b ∷ rest

attribute_map : List Attribute → List Attribute → List Attribute
unfolding put
attribute_map [] am = am
attribute_map (a ∷ attributes) am = attribute_map attributes (put a am)

module _ {C : Type 0} where
  unfoldable pub set_name : Span C → Bytes → Option (Span C)
  set_name s name =
      on_recorded (λ r. some (record r { span_data = record r.span_data { name = name } })) s

  unfoldable pub set_status : Span C → Status → Option (Span C)
  set_status s status =
      on_recorded (λ r. some (record r { span_data = record r.span_data { status = status } })) s

  unfoldable pub add_child : Span C → Option (Span C)
  add_child s =
      on_recorded
        (λ r. some (record r {
          span_data = record r.span_data { child_span_count = r.span_data.child_span_count + 1 };
        }))
        s

  unfoldable pub annotate : Span C → ℕ → List Attribute → Bytes → Option (Span C)
  unfolding EvictedQueue.add attribute_map
  annotate s now attributes str =
      on_recorded
        (λ r.
          elim (EvictedQueue.add r.annotations
            (record { time = now; message = str; attributes = attribute_map attributes [] })) [
              | none ↦ none
              | some queue ↦ some (record r { annotations = queue })
            ])
        s

  unfoldable add_message_event : Span C → MessageEvent → Option (Span C)
  unfolding EvictedQueue.add
  add_message_event s event =
      on_recorded
        (λ r. elim (EvictedQueue.add r.message_events event) [
          | none ↦ none
          | some queue ↦ some (record r { message_events = queue })
        ])
        s

  unfoldable pub add_message_send_event : Span C → ℕ → ℤ → ℤ → ℤ → Option (Span C)
  unfolding add_message_event
  add_message_send_event s now message_id uncompressed compressed = add_message_event s (record {
    time = now;
    event_type = sent;
    message_id = message_id;
    uncompressed_byte_size = uncompressed;
    compressed_byte_size = compressed;
  })

  unfoldable pub add_message_receive_event : Span C → ℕ → ℤ → ℤ → ℤ → Option (Span C)
  unfolding add_message_event
  add_message_receive_event s now message_id uncompressed compressed = add_message_event s (record {
    time = now;
    event_type = recv;
    message_id = message_id;
    uncompressed_byte_size = uncompressed;
    compressed_byte_size = compressed;
  })

  unfoldable pub add_link : Span C → Link → Option (Span C)
  unfolding EvictedQueue.add
  add_link s l =
      on_recorded
        (λ r. elim (EvictedQueue.add r.links l) [
          | none ↦ none
          | some queue ↦ some (record r { links = queue })
        ])
        s

module _ {C : Type 0} (lru : Lru C) where
  unfoldable pub add_attributes : Span C → List (Bytes × Bytes) → Option (Span C)
  unfolding LruMap.add_all
  add_attributes s attributes =
      on_recorded
        (λ r. some (record r { lru_attributes = LruMap.add_all lru r.lru_attributes attributes })) s

-- The calls that a client makes on a span before it ends.
pub data Call : Type 0 where
  named : Bytes → Call
  has_status : Status → Call
  with_child : Call
  annotated : ℕ → List Attribute → Bytes → Call
  sends receives : ℕ → ℤ → ℤ → ℤ → Call
  linked : Link → Call
  has_attributes : List (Bytes × Bytes) → Call

module _ {C : Type 0} (lru : Lru C) where
  pub call : Span C → Call → Option (Span C)
  unfolding set_name set_status add_child annotate add_message_send_event add_message_receive_event
      add_link add_attributes
  call s (named name) = set_name s name
  call s (has_status status) = set_status s status
  call s with_child = add_child s
  call s (annotated now attributes str) = annotate s now attributes str
  call s (sends now id uncompressed compressed) =
      add_message_send_event s now id uncompressed compressed
  call s (receives now id uncompressed compressed) =
      add_message_receive_event s now id uncompressed compressed
  call s (linked l) = add_link s l
  call s (has_attributes attributes) = add_attributes lru s attributes

  pub call_all : Span C → List Call → Option (Span C)
  unfolding call
  call_all s [] = some s
  call_all s (c ∷ calls) = elim (call s c) [ none ↦ none | some s' ↦ call_all s' calls ]
