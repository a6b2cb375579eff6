-- ===== src/Trace/Span/Stores.antt =====
-- The span stores of all names under the calls that change them, in any order.
use opencensus_go.Trace.{SpanContext, SpanData, is_sampled}
use opencensus_go.Trace.LruMap.{Lru}
use opencensus_go.Trace.SpanStore.{
  SpanStores, add_active, finished, span_store_for_name_create_if_new, BucketConfiguration,
  configure_bucket_sizes,
}
use opencensus_go.Trace.SpanStore.Invariant.{finished-IsValid}
use opencensus_go.Trace.SpanStore.Names.{
  HasSize, Usable, put-Usable, made-Usable, add_active-IsValid, configure_bucket_sizes-Usable,
}
use opencensus_go.Trace.Span.{Config, StartOptions, Span, start_span_internal, start_context}
use opencensus_go.Trace.Span.Finish.{end, end_span, end_recorded, finish}
use opencensus_go.Prelude.{
  ℕ, Bytes, bytes_eq, Bool, true, false, not, ◌&&◌, List, [], Option, none, some, ◌≡◌, All-lookup,
  lookup, insert, if◌then◌else◌, Option-cases, Bool-cases, inl, inr,
}

finish-Usable :
    (stores : SpanStores) (o : Option Bytes) (ptr : ℕ) (sd : SpanData)
    → Usable stores
    → Usable (finish stores o ptr sd)
unfolding finish
finish-Usable stores none ptr sd u = u
finish-Usable stores (some name) ptr sd u = elim (Option-cases (lookup name stores)) [
  | inl e ↦ rw (e, finish) u
  | inr (s, e) ↦
      let (places, v) = All-lookup HasSize name s stores u e in
      rw (e, finish)
        (put-Usable stores name places (finished s ptr sd) u (finished-IsValid places s ptr sd v))
]

if-Usable :
    (b : Bool) (stores stores' : SpanStores)
    → Usable stores
    → Usable stores'
    → Usable (if b then stores else stores')
if-Usable true stores stores' u u' = u
if-Usable false stores stores' u u' = u'

module _ {C : Type 0} (lru : Lru C) where
  end-Usable :
      (stores : SpanStores) (exporters ptr end_time : ℕ) (s : Span C)
      → Usable stores
      → Usable (end lru stores exporters ptr end_time s).0
  unfolding end end_span end_recorded
  end-Usable stores exporters ptr end_time s u = elim (Option-cases s.recorded) [
    | inl e ↦ rw e u
    | inr (r, e) ↦ elim (Bool-cases s.ended) [
      | inl f ↦ rw (e, f) u
      | inr f ↦ rw (e, f) (if-Usable _ _ stores (finish-Usable stores r.span_store ptr _ u) u)
    ]
  ]

  start-Usable :
      (cfg : Config) (local_span_store : Bool) (stores : SpanStores) (ptr now : ℕ)
      (new_trace_id new_span_id name : Bytes) (has_parent : Bool) (parent : SpanContext)
      (remote_parent : Bool) (o : StartOptions)
      → Usable stores
      → Usable
          (start_span_internal lru cfg local_span_store stores ptr now new_trace_id new_span_id name
            has_parent parent remote_parent o).0
  unfolding start_span_internal
  start-Usable cfg local_span_store stores ptr now new_trace_id new_span_id name has_parent parent
        remote_parent o u =
      let sc = start_context cfg o name has_parent parent remote_parent new_trace_id new_span_id in
      let made = span_store_for_name_create_if_new stores name in
      let (kept, sized) = made-Usable stores name u in
      let (places, v) = sized in
      let noted =
        put-Usable made.0 name places (add_active made.1 ptr) kept
          (add_active-IsValid places ptr made.1 v) in
      elim (Bool-cases (not local_span_store && not (is_sampled sc))) [
        | inl e ↦ rw e u
        | inr e ↦
            rw e (
              if-Usable local_span_store (insert name (add_active made.1 ptr) made.0) stores noted
                u)
      ]

  -- The calls that change the stores. A span that ends may be any.
  pub data Step : SpanStores → SpanStores → Type 0 where
    started :
        (cfg : Config) (local_span_store : Bool) (stores : SpanStores) (ptr now : ℕ)
        (new_trace_id new_span_id name : Bytes) (has_parent : Bool) (parent : SpanContext)
        (remote_parent : Bool) (o : StartOptions)
        → Step stores
            (start_span_internal lru cfg local_span_store stores ptr now new_trace_id new_span_id
              name has_parent parent remote_parent o).0
    ended :
        (stores : SpanStores) (exporters ptr end_time : ℕ) (s : Span C)
        → Step stores (end lru stores exporters ptr end_time s).0
    configured :
        (stores stores' : SpanStores) (bcs : List BucketConfiguration)
        → configure_bucket_sizes stores bcs ≡ some stores'
        → Step stores stores'

  -- The stores that the calls lead to from the empty map.
  pub data Reachable : SpanStores → Type 0 where
    initial : Reachable []
    after :
        (stores stores' : SpanStores) → Reachable stores → Step stores stores' → Reachable stores'

  Step-Usable : (stores stores' : SpanStores) → Step stores stores' → Usable stores → Usable stores'
  Step-Usable _ _
        (started cfg local_span_store stores ptr now new_trace_id new_span_id name has_parent parent
          remote_parent o)
        u =
      start-Usable cfg local_span_store stores ptr now new_trace_id new_span_id name has_parent
        parent remote_parent o u
  Step-Usable _ _ (ended stores exporters ptr end_time s) u =
      end-Usable stores exporters ptr end_time s u
  Step-Usable _ _ (configured stores stores' bcs e) u =
      let (next, run, u') = configure_bucket_sizes-Usable stores bcs u in
      let same : next ≡ stores' = cc in rw (← same) u'

  usable : (stores : SpanStores) → Reachable stores → Usable stores
  usable _ initial = tt
  usable _ (after stores stores' r step) = Step-Usable stores stores' step (usable stores r)

  -- However the starts and ends of spans and the changes of bucket sizes follow each other, every
  -- store is well formed, and a further change of bucket sizes does not panic.
  pub reachable-Usable :
      (stores : SpanStores)
      → Reachable stores
      → Usable stores
        × ((bcs : List BucketConfiguration)
            → (stores' : SpanStores) × (configure_bucket_sizes stores bcs ≡ some stores'))
  reachable-Usable stores r =
      let u = usable stores r in
      (u, λ bcs. let (next, run, u') = configure_bucket_sizes-Usable stores bcs u in (next, run))
