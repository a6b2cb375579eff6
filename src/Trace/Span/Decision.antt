-- ===== src/Trace/Span/Decision.antt =====
-- How a span starts: its identifiers, the sampling decision, and whether it records.
use opencensus_go.Trace.{SpanContext, is_sampled}
use opencensus_go.Trace.LruMap.{Lru}
use opencensus_go.Trace.SpanStore.{SpanStores}
use opencensus_go.Trace.Span.{
  Config, StartOptions, set_is_sampled, start_context, start_span_internal, is_recording_events,
  if_not_nil, is_given,
}
use opencensus_go.Prelude.{
  ℕ, ◌/◌, Bytes, nat_eq, Bool, true, false, not, ◌||◌, ◌&&◌, ◌≡◌, refl, if◌then◌else◌, Bool-cases,
  inl, inr, arith,
}

-- Setting the sampling bit sets it to the wanted value and changes no other bit of the options.
pub set_is_sampled_lem :
    (sc : SpanContext) (sampled : Bool)
    → (is_sampled (set_is_sampled sc sampled) ≡ sampled)
      × ((set_is_sampled sc sampled).trace_options / 2 ≡ sc.trace_options / 2)
unfolding set_is_sampled
set_is_sampled_lem sc true = (ground arith, omega arith)
set_is_sampled_lem sc false = (ground arith, omega arith)

module _ (cfg : Config) (o : StartOptions) (name : Bytes) (has_parent : Bool) (parent : SpanContext)
    (remote_parent : Bool) (new_trace_id new_span_id : Bytes) where
  abbrev trace_id_of : Bytes
  trace_id_of = if has_parent then parent.trace_id else new_trace_id

  -- The decision that a span of a local parent inherits, and any other one asks a sampler for.
  abbrev pub decision : Bool
  decision =
      if not has_parent || remote_parent || is_given o.sampler
      then if_not_nil o.sampler cfg.default_sampler (record {
        parent_context = parent;
        trace_id = trace_id_of;
        span_id = new_span_id;
        name = name;
        has_remote_parent = remote_parent;
      })
      else is_sampled parent

  start_context_lem :
      let sc = start_context cfg o name has_parent parent remote_parent new_trace_id new_span_id in
      (is_sampled sc ≡ decision)
      × (sc.trace_id ≡ trace_id_of)
      × (sc.span_id ≡ new_span_id)
      × (sc.trace_options / 2 ≡ parent.trace_options / 2)
  unfolding start_context
  start_context_lem =
      let asked =
        set_is_sampled_lem (record parent { trace_id = trace_id_of; span_id = new_span_id })
          (if_not_nil o.sampler cfg.default_sampler (record {
            parent_context = parent;
            trace_id = trace_id_of;
            span_id = new_span_id;
            name = name;
            has_remote_parent = remote_parent;
          })) in
      elim (Bool-cases (not has_parent || remote_parent || is_given o.sampler)) [
        | inl e ↦ rw e (asked.0, refl, refl, asked.1)
        | inr e ↦ rw e (refl, refl, refl, refl)
      ]

recording : (l s d b : Bool) → s ≡ d → (not l && not s) ≡ b → not b ≡ (l || d)
recording l s d b h e = ground arith

module _ {C : Type 0} (lru : Lru C) (cfg : Config) (local_span_store : Bool) (stores : SpanStores)
    (ptr now : ℕ) (new_trace_id new_span_id name : Bytes) (has_parent : Bool) (parent : SpanContext)
    (remote_parent : Bool) (o : StartOptions) where
  -- A new span continues the trace of its parent, if it has one, under a new span identifier, and
  -- keeps the other bits of the parent's options. It is sampled as its local parent is, unless the
  -- options name a sampler; without a parent, with a remote one, or with a sampler in the options,
  -- a sampler decides, the one of the options first. It records events when it is sampled or the
  -- local span store is on.
  pub start_span_internal_lem :
      let sampled = decision cfg o name has_parent parent remote_parent new_trace_id new_span_id in
      let span =
        (start_span_internal lru cfg local_span_store stores ptr now new_trace_id new_span_id name
          has_parent parent remote_parent o).1 in
      (is_sampled span.span_context ≡ sampled)
      × (span.span_context.trace_id ≡ (if has_parent then parent.trace_id else new_trace_id))
      × (span.span_context.span_id ≡ new_span_id)
      × (span.span_context.trace_options / 2 ≡ parent.trace_options / 2)
      × (is_recording_events span ≡ (local_span_store || sampled))
  unfolding start_span_internal
  start_span_internal_lem =
      let made =
        start_context_lem cfg o name has_parent parent remote_parent new_trace_id new_span_id in
      let sc = start_context cfg o name has_parent parent remote_parent new_trace_id new_span_id in
      let sampled = decision cfg o name has_parent parent remote_parent new_trace_id new_span_id in
      elim (Bool-cases (not local_span_store && not (is_sampled sc))) [
        | inl e ↦ rw e (
          made.0,
          made.1,
          made.2,
          made.3,
          recording local_span_store (is_sampled sc) sampled true made.0 e,
        )
        | inr e ↦ rw e (
          made.0,
          made.1,
          made.2,
          made.3,
          recording local_span_store (is_sampled sc) sampled false made.0 e,
        )
      ]
