-- ===== src/Trace/Span/Finish/Once.antt =====
-- `endOnce`: a span ends once.
use opencensus_go.Trace.LruMap.{Lru}
use opencensus_go.Trace.SpanStore.{SpanStores}
use opencensus_go.Trace.Span.{Span}
use opencensus_go.Trace.Span.Finish.{end_recorded, end_span, end}
use opencensus_go.Prelude.{
  ℕ, true, none, ◌≡◌, refl, ap, ◌∙◌, Option-cases, Bool-cases, inl, inr, ◌⊎◌,
}

module _ {C : Type 0} (lru : Lru C) (ptr : ℕ) where
  -- A span that has ended, or that records nothing.
  abbrev IsIdle : Span C → Type 0
  IsIdle s = (s.recorded ≡ none) ⊎ (s.ended ≡ true)

  end_idle :
      (stores : SpanStores) (exporters end_time : ℕ) (s : Span C)
      → IsIdle s
      → end lru stores exporters ptr end_time s ≡ (stores, s, none, s.execution_tracer_task_end)
  unfolding end end_span
  end_idle stores exporters end_time s (inl e) = rw e refl
  end_idle stores exporters end_time s (inr f) = elim (Option-cases s.recorded) [
    | inl e ↦ rw e refl
    | inr (r, e) ↦ rw (e, f) refl
  ]

  end-IsIdle :
      (stores : SpanStores) (exporters end_time : ℕ) (s : Span C)
      → IsIdle (end lru stores exporters ptr end_time s).1
  unfolding end end_span end_recorded
  end-IsIdle stores exporters end_time s = elim (Option-cases s.recorded) [
    | inl e ↦ rw e (inl refl)
    | inr (r, e) ↦ elim (Bool-cases s.ended) [
      | inl f ↦ rw (e, f) (inr refl)
      | inr f ↦ rw (e, f) (inr refl)
    ]
  ]

  same_task :
      (stores : SpanStores) (exporters end_time : ℕ) (s : Span C)
      → (end lru stores exporters ptr end_time s).1.execution_tracer_task_end
        ≡ s.execution_tracer_task_end
  unfolding end end_span end_recorded
  same_task stores exporters end_time s = elim (Option-cases s.recorded) [
    | inl e ↦ rw e refl
    | inr (r, e) ↦ elim (Bool-cases s.ended) [ inl f ↦ rw (e, f) refl | inr f ↦ rw (e, f) refl ]
  ]

  -- After a call of `End`, a second one with any exporters and at any time changes neither the
  -- stores nor the span, and exports nothing. All that it does is to call the function that ends
  -- the span's task of the execution tracer, if there is one, once more.
  pub end_twice :
      (stores : SpanStores) (exporters exporters' end_time end_time' : ℕ) (s : Span C)
      → let once = end lru stores exporters ptr end_time s in
        end lru once.0 exporters' ptr end_time' once.1
        ≡ (once.0, once.1, none, s.execution_tracer_task_end)
  end_twice stores exporters exporters' end_time end_time' s =
      let once = end lru stores exporters ptr end_time s in
      end_idle once.0 exporters' end_time' once.1 (end-IsIdle stores exporters end_time s)
      ∙ ap (λ task. (once.0, once.1, none, task)) (same_task stores exporters end_time s)
