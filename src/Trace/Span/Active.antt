-- ===== src/Trace/Span/Active.antt =====
-- trace/spanstore.go: the report of the active spans, which `heap` keeps by their addresses.
use opencensus_go.Trace.{SpanData}
use opencensus_go.Trace.LruMap.{Lru}
use opencensus_go.Trace.Span.{Span}
use opencensus_go.Trace.Span.Finish.{make_span_data}
use opencensus_go.Trace.SpanStore.{SpanStores}
use opencensus_go.Prelude.{ℕ, Bytes, bytes_eq, nat_eq, List, [], ◌∷◌, Option, none, some, lookup}

module _ {C : Type 0} (lru : Lru C) (heap : List (ℕ × Span C)) where
  -- The loop over the active spans; each of them records events. `none` is a panic.
  unfoldable pub active_data : List (ℕ × Unit {0}) → Option (List SpanData)
  unfolding make_span_data
  active_data [] = some []
  active_data ((x, _) ∷ active) = elim (lookup x heap) [
    | none ↦ none
    | some s ↦ elim s.recorded [
      | none ↦ none
      | some r ↦ elim (active_data active) [
        | none ↦ none
        | some rest ↦ some (make_span_data lru r ∷ rest)
      ]
    ]
  ]

  unfoldable pub report_active_spans : SpanStores → Bytes → Option (List SpanData)
  unfolding active_data
  report_active_spans stores name = elim (lookup name stores) [
    | none ↦ some []
    | some s ↦ active_data s.active
  ]
