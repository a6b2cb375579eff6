-- ===== src/Trace/Bucket/Kept.antt =====
-- What holds of every span that enters a bucket holds of every span in its buffer.
use opencensus_go.Trace.{SpanData}
use opencensus_go.Trace.Bucket.{Bucket, make_bucket, add, store, size, span, copy_spans, resize}
use opencensus_go.Prelude.{
  ℕ, zero, suc, ◌+◌, ◌-◌, ◌≡◌, List, [], ◌∷◌, Option, none, some, ltb, ◌==◌, nat_eq, length,
  get_elem?, set, replicate, All, Bool-cases, Option-cases, inl, inr,
}

module _ (P : SpanData → Type 0) where
  -- A place is nil or holds a span of the kind.
  abbrev pub Held : Option SpanData → Type 0
  Held none = Unit {0}
  Held (some sd) = P sd

  abbrev pub Only : Bucket → Type 0
  Only b = All Held b.buffer

  All-replicate : (n : ℕ) → All Held (replicate n none)
  All-replicate zero = tt
  All-replicate (suc n) = (tt, All-replicate n)

  All-set :
      (xs : List (Option SpanData)) (i : ℕ) (x : Option SpanData)
      → All Held xs
      → Held x
      → All Held (set xs i x)
  All-set [] i x h p = tt
  All-set (y ∷ xs) zero x h p = (p, h.1)
  All-set (y ∷ xs) (suc i) x h p = (h.0, All-set xs i x h.1 p)

  All-get_elem? :
      (xs : List (Option SpanData)) (i : ℕ) (x : Option SpanData)
      → All Held xs
      → get_elem? xs i ≡ some x
      → Held x
  All-get_elem? [] i x h e = absurd (cc)
  All-get_elem? (y ∷ xs) zero x h e = let same : y ≡ x = cc in rw (← same) h.0
  All-get_elem? (y ∷ xs) (suc i) x h e = All-get_elem? xs i x h.1 e

  pub make_bucket-Only : (n : ℕ) → Only (make_bucket n)
  unfolding make_bucket
  make_bucket-Only n = All-replicate n

  store-Only : (b : Bucket) (s : SpanData) → Only b → P s → Only (store b s)
  unfolding store
  store-Only b s h p =
      let kept = All-set b.buffer b.next_index (some s) h p in
      elim (Bool-cases (b.next_index + 1 == length (set b.buffer b.next_index (some s)))) [
        | inl e ↦ rw e kept
        | inr e ↦ rw e kept
      ]

  pub add-Only : (b : Bucket) (s : SpanData) → Only b → P s → Only (add b s)
  unfolding add
  add-Only b s h p = elim (Bool-cases (ltb s.end_time b.next_time)) [
    | inl e ↦ rw e h
    | inr e ↦ elim (Bool-cases (length b.buffer == 0)) [
      | inl z ↦ rw (e, z) h
      | inr z ↦ rw (e, z) (store-Only b s h p)
    ]
  ]

  span-Held : (b : Bucket) (i : ℕ) (x : Option SpanData) → Only b → span b i ≡ some x → Held x
  unfolding span
  span-Held b i x h e = elim (Bool-cases b.overflow) [
    | inr o ↦ All-get_elem? b.buffer i x h (rw o at e)
    | inl o ↦ elim (Bool-cases (ltb i (length b.buffer - b.next_index))) [
      | inl l ↦ All-get_elem? b.buffer (b.next_index + i) x h (rw (o, l) at e)
      | inr l ↦ All-get_elem? b.buffer (b.next_index + i - length b.buffer) x h (rw (o, l) at e)
    ]
  ]

  copy_spans-Only :
      (b : Bucket) (rounds i offset : ℕ) (buf out : List (Option SpanData))
      → Only b
      → All Held buf
      → copy_spans b rounds i offset buf ≡ some out
      → All Held out
  unfolding copy_spans
  copy_spans-Only b zero i offset buf out h k e = let same : buf ≡ out = cc in rw (← same) k
  copy_spans-Only b (suc rounds) i offset buf out h k e =
      elim (Option-cases (span b (i + offset))) [
        | inl n ↦ absurd (let no = rw (n, copy_spans) at e in cc)
        | inr (x, f) ↦
            copy_spans-Only b rounds (i + 1) offset (set buf i x) out h
              (All-set buf i x k (span-Held b (i + offset) x h f)) (rw (f, copy_spans) at e)
      ]

  pub resize-Only : (b b' : Bucket) (n : ℕ) → Only b → resize b n ≡ some b' → Only b'
  unfolding resize
  resize-Only b b' n h e = elim (Bool-cases (ltb (size b) n)) [
    | inl l ↦ elim (Option-cases (copy_spans b (size b) 0 0 (replicate n none))) [
      | inl f ↦ absurd (let no = rw (l, f) at e in cc)
      | inr (out, f) ↦
          let same = rw (l, f) at e in
          let buffer : out ≡ b'.buffer = cc in
          rw (← buffer)
            (copy_spans-Only b (size b) 0 0 (replicate n none) out h (All-replicate n) f)
    ]
    | inr l ↦ elim (Option-cases (copy_spans b n 0 (size b - n) (replicate n none))) [
      | inl f ↦ absurd (let no = rw (l, f) at e in cc)
      | inr (out, f) ↦
          let same = rw (l, f) at e in
          let buffer : out ≡ b'.buffer = cc in
          rw (← buffer)
            (copy_spans-Only b n 0 (size b - n) (replicate n none) out h (All-replicate n) f)
    ]
  ]
