-- ===== src/Trace/Span/Operations/Panics.antt =====
-- No call on a span panics while the configured limits are positive.
use opencensus_go.Trace.{MessageEvent, SpanContext, is_sampled}
use opencensus_go.Trace.EvictedQueue.{new_evicted_queue, IsBounded, add-IsBounded}
use opencensus_go.Trace.LruMap.{Lru}
use opencensus_go.Trace.SpanStore.{SpanStores}
use opencensus_go.Trace.Span.{
  Config, ConfigChange, StartOptions, Span, Recorded, apply_config, if_positive,
  start_span_internal, start_context,
}
use opencensus_go.Trace.Span.Operations.{
  attribute_map, set_name, set_status, add_child, annotate, add_message_event,
  add_message_send_event, add_message_receive_event, add_link, add_attributes, on_recorded, Call,
  named, has_status, with_child, annotated, sends, receives, linked, has_attributes, call, call_all,
}
use opencensus_go.Prelude.{
  ℕ, zero, suc, ◌<◌, ◌≡◌, refl, Bytes, ℤ, pos, negsuc, Bool, not, ◌&&◌, List, [], ◌∷◌, Option, some,
  nat_eq, Option-cases, Bool-cases, inl, inr, arith,
}

-- The limits of a configuration are positive, as those of the initial one are.
abbrev pub IsPositive : Config → Type 0
IsPositive cfg =
    (0 < cfg.max_annotation_events_per_span)
    × (0 < cfg.max_message_events_per_span)
    × (0 < cfg.max_links_per_span)

if_positive_lem : (n : ℤ) (old : ℕ) → 0 < old → 0 < if_positive n old
if_positive_lem (pos zero) old h = h
if_positive_lem (pos (suc n)) old h = omega arith
if_positive_lem (negsuc n) old h = h

-- `ApplyConfig` keeps the limits positive, whatever limits it is given.
pub apply_config-IsPositive :
    (cfg : Config) (change : ConfigChange) → IsPositive cfg → IsPositive (apply_config cfg change)
unfolding apply_config
apply_config-IsPositive cfg change h = (
  if_positive_lem change.max_annotation_events_per_span cfg.max_annotation_events_per_span h.0,
  if_positive_lem change.max_message_events_per_span cfg.max_message_events_per_span h.1,
  if_positive_lem change.max_links_per_span cfg.max_links_per_span h.2,
)

-- The queues of a span are within positive limits.
module _ {C : Type 0} where
  pub record HasRoom (r : Recorded C) : Type 0 where
    pub annotations_bounded : IsBounded r.annotations
    pub events_bounded : IsBounded r.message_events
    pub links_bounded : IsBounded r.links

  -- A span that records nothing, or whose queues are within positive limits.
  abbrev pub IsSafe : Span C → Type 0
  IsSafe s = (r : Recorded C) → s.recorded ≡ some r → HasRoom r

  -- The call returns, and leaves a span that is safe again.
  abbrev pub Returns : Option (Span C) → Type 0
  Returns result = (s' : Span C) × (result ≡ some s') × IsSafe s'

  on_recorded-Returns :
      (f : Recorded C → Option (Recorded C)) (s : Span C)
      → ((r : Recorded C) → HasRoom r → (r' : Recorded C) × (f r ≡ some r') × HasRoom r')
      → IsSafe s
      → Returns (on_recorded f s)
  on_recorded-Returns f s h safe = elim (Option-cases s.recorded) [
    | inl e ↦ (s, rw e refl, safe)
    | inr (r, e) ↦
        let (r', run, room) = h r (safe r e) in
        (
          record s { recorded = some r' },
          rw (e, on_recorded, run) refl,
          λ other same. let it : r' ≡ other = cc in rw (← it) room,
        )
  ]

  add_message_event-Returns :
      (s : Span C) (event : MessageEvent) → IsSafe s → Returns (add_message_event s event)
  unfolding add_message_event
  add_message_event-Returns s event = on_recorded-Returns _ s (λ r room.
      let (queue, run, bounded) = add-IsBounded r.message_events event room.events_bounded in
      (
        record r { message_events = queue },
        rw run refl,
        record {
          annotations_bounded = room.annotations_bounded;
          events_bounded = bounded;
          links_bounded = room.links_bounded;
        },
      ))

  -- A call that leaves the queues alone.
  other-Returns :
      (f : Recorded C → Recorded C) (s : Span C)
      → ((r : Recorded C) → HasRoom r → HasRoom (f r))
      → IsSafe s
      → Returns (on_recorded (λ r. some (f r)) s)
  other-Returns f s h = on_recorded-Returns (λ r. some (f r)) s (λ r room. (f r, refl, h r room))

  carried : (r r' : Recorded C) → some r ≡ some r' → HasRoom r → HasRoom r'
  carried r r' e room = let same : r ≡ r' = cc in rw (← same) room

  -- The room of a span that differs in other fields.
  same_room :
      (r r' : Recorded C)
      → r'.annotations ≡ r.annotations
      → r'.message_events ≡ r.message_events
      → r'.links ≡ r.links
      → HasRoom r
      → HasRoom r'
  same_room r r' a m l room = record {
    annotations_bounded = rw a room.annotations_bounded;
    events_bounded = rw m room.events_bounded;
    links_bounded = rw l room.links_bounded;
  }

module _ {C : Type 0} (lru : Lru C) where
  call-Returns : (s : Span C) (c : Call) → IsSafe s → Returns (call lru s c)
  unfolding call set_name set_status add_child annotate add_link add_attributes
      add_message_send_event add_message_receive_event
  call-Returns s (named name) = other-Returns _ s (λ r. same_room r _ refl refl refl)
  call-Returns s (has_status status) = other-Returns _ s (λ r. same_room r _ refl refl refl)
  call-Returns s with_child = other-Returns _ s (λ r. same_room r _ refl refl refl)
  call-Returns s (has_attributes attributes) = other-Returns _ s (λ r. same_room r _ refl refl refl)
  call-Returns s (sends now id uncompressed compressed) = add_message_event-Returns s _
  call-Returns s (receives now id uncompressed compressed) = add_message_event-Returns s _
  call-Returns s (annotated now attributes str) = on_recorded-Returns _ s (λ r room.
      let (queue, run, bounded) =
        add-IsBounded r.annotations
          (record { time = now; message = str; attributes = attribute_map attributes [] })
          room.annotations_bounded in
      (
        record r { annotations = queue },
        rw run refl,
        record {
          annotations_bounded = bounded;
          events_bounded = room.events_bounded;
          links_bounded = room.links_bounded;
        },
      ))
  call-Returns s (linked l) = on_recorded-Returns _ s (λ r room.
      let (queue, run, bounded) = add-IsBounded r.links l room.links_bounded in
      (
        record r { links = queue },
        rw run refl,
        record {
          annotations_bounded = room.annotations_bounded;
          events_bounded = room.events_bounded;
          links_bounded = bounded;
        },
      ))

  call_all-Returns : (s : Span C) (calls : List Call) → IsSafe s → Returns (call_all lru s calls)
  unfolding call_all
  call_all-Returns s [] safe = (s, refl, safe)
  call_all-Returns s (c ∷ calls) safe =
      let (next, run, safe') = call-Returns s c safe in
      let (last, runs, safe'') = call_all-Returns next calls safe' in
      (last, rw (run, call_all) runs, safe'')

module _ {C : Type 0} (lru : Lru C) (cfg : Config) (local_span_store : Bool) (stores : SpanStores)
    (ptr now : ℕ) (new_trace_id new_span_id name : Bytes) (has_parent : Bool) (parent : SpanContext)
    (remote_parent : Bool) (o : StartOptions) where
  started-IsSafe :
      IsPositive cfg
      → IsSafe
          (start_span_internal lru cfg local_span_store stores ptr now new_trace_id new_span_id name
            has_parent parent remote_parent o).1
  unfolding start_span_internal new_evicted_queue
  started-IsSafe h r =
      let sc = start_context cfg o name has_parent parent remote_parent new_trace_id new_span_id in
      elim (Bool-cases (not local_span_store && not (is_sampled sc))) [
        | inl e ↦ rw e (λ same. absurd (cc))
        | inr e ↦ rw e (λ same. carried _ r same (record {
          annotations_bounded = (h.0, omega arith);
          events_bounded = (h.1, omega arith);
          links_bounded = (h.2, omega arith);
        }))
      ]

  -- On a span that was started under positive limits, no sequence of calls panics: each of them
  -- returns, whether the span records or not.
  pub started_calls-Returns :
      (calls : List Call)
      → IsPositive cfg
      → Returns (
          call_all lru
            (start_span_internal lru cfg local_span_store stores ptr now new_trace_id new_span_id
              name has_parent parent remote_parent o).1
            calls)
  started_calls-Returns calls h = call_all-Returns lru _ calls (started-IsSafe h)
