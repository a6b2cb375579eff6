-- ===== src/Trace/Bucket/Resize.antt =====
-- `resize`: the two loops copy the newest spans into a new buffer.
use Prim.Native.Nat.add
use opencensus_go.Buffer.{copy, length-copy, copy_zero, take-copy_zero}
use opencensus_go.Trace.{SpanData}
use opencensus_go.Trace.Bucket.{Bucket, size, copy_spans, resize}
use opencensus_go.Prelude.{
  ℕ, zero, suc, ◌+◌, ◌-◌, ◌≤◌, ◌<◌, ◌≡◌, refl, sym, ap, ◌∙◌, List, [], ◌∷◌, ◌++◌, true, false,
  Option, none, some, ltb, nat_eq, length, get_elem?, set, take, drop, replicate, newest,
  newest_room, length-newest, length-set, length-replicate, take-suc-drop, get_elem?_inside,
  take_all, drop_all, append-nil, Bool-cases, inl, inr, arith,
}
use opencensus_go.Trace.Bucket.Laws.{contents, IsValid, size-contents, span-contents}

-- The loops of `resize`.
copy-set :
    (buf : List (Option SpanData)) (i : ℕ) (x : Option SpanData) (xs : List (Option SpanData))
    → i < length buf
    → copy (set buf i x) (suc i) xs ≡ copy buf i (x ∷ xs)
unfolding copy
copy-set [] i x xs h = absurd (omega arith)
copy-set (y ∷ buf) zero x xs h = refl
copy-set (y ∷ buf) (suc i) x xs h = ap (◌∷◌ y) (copy-set buf i x xs (omega arith))

copy_none : (buf : List (Option SpanData)) (i : ℕ) → copy buf i [] ≡ buf
unfolding copy
copy_none [] i = refl
copy_none (y ∷ buf) zero = refl
copy_none (y ∷ buf) (suc i) = ap (◌∷◌ y) (copy_none buf i)

-- One round more of the loop.
copy_step :
    (c buf : List (Option SpanData)) (rounds i offset : ℕ) (x : Option SpanData)
    → get_elem? c (i + offset) ≡ some x
    → i < length buf
    → copy (set buf i x) (i + 1) (take rounds (drop (i + 1 + offset) c))
      ≡ copy buf i (take (suc rounds) (drop (i + offset) c))
copy_step c buf rounds i offset x e h =
    let next : i + 1 + offset ≡ suc (i + offset) = omega arith in
    let place : i + 1 ≡ suc i = omega arith in
    rw (next, place, take-suc-drop c (i + offset) rounds x e)
      (copy-set buf i x (take rounds (drop (suc (i + offset)) c)) h)

copy_spans_lem :
    (b : Bucket) (rounds i offset : ℕ) (buf : List (Option SpanData))
    → IsValid b
    → i + rounds ≤ length buf
    → i + offset + rounds ≤ size b
    → copy_spans b rounds i offset buf
      ≡ some (copy buf i (take rounds (drop (i + offset) (contents b))))
unfolding copy_spans
copy_spans_lem b zero i offset buf v h k = ap some (sym (copy_none buf i))
copy_spans_lem b (suc rounds) i offset buf v h k =
    let inside : i + offset < length (contents b) = rw (← size-contents b v) (omega arith) in
    let (x, e) = get_elem?_inside (contents b) (i + offset) inside in
    let read = span-contents b (i + offset) v (omega arith) ∙ e in
    rw (read, copy_spans)
      (copy_spans_lem b rounds (i + 1) offset (set buf i x) v (omega (arith, length-set buf i x))
          (omega arith)
        ∙ ap some (copy_step (contents b) buf rounds i offset x e (omega arith)))

-- The new buffer of `resize` when there is room for all spans, and when there is not.
pub resized_room :
    (b : Bucket) (n : ℕ)
    → IsValid b
    → size b < n
    → (copy_spans b (size b) 0 0 (replicate n none) ≡ some (copy (replicate n none) 0 (contents b)))
      × (take (size b) (copy (replicate n none) 0 (contents b)) ≡ contents b)
resized_room b n v h =
    let count = size-contents b v in
    let slots = length-replicate {A = Option SpanData} n none in
    let all = take_all (size b) (contents b) (omega arith) in
    (
      copy_spans_lem b (size b) 0 0 (replicate n none) v (omega arith) (omega arith)
          ∙ ap (λ (w : List (Option SpanData)). some (copy (replicate n none) 0 w)) all,
      rw count (take-copy_zero (replicate n none) (contents b) (omega arith)),
    )

pub resized_full :
    (b : Bucket) (n : ℕ)
    → IsValid b
    → n ≤ size b
    → copy_spans b n 0 (size b - n) (replicate n none) ≡ some (newest n (contents b))
resized_full b n v h =
    let count = size-contents b v in
    let slots = length-replicate {A = Option SpanData} n none in
    let kept : List (Option SpanData) = newest n (contents b) in
    let size_kept : length kept ≡ n = omega (arith, length-newest n (contents b)) in
    let source : take n (drop (0 + (size b - n)) (contents b)) ≡ kept =
      rw (add.zero (size b - n), count) (take_all n kept (omega arith)) in
    let target : copy (replicate n none) 0 kept ≡ kept =
      copy_zero (replicate n none) kept (omega arith)
      ∙ ap (◌++◌ kept) (drop_all (length kept) (replicate n none) (omega arith))
      ∙ append-nil kept in
    copy_spans_lem b n 0 (size b - n) (replicate n none) v (omega arith) (omega arith)
    ∙ ap some (ap (copy (replicate n none) 0) source ∙ target)

-- `resize` never panics. It keeps the newest spans, as many as there are places, in their order.
pub contents-resize :
    (b : Bucket) (n : ℕ)
    → IsValid b
    → (b' : Bucket) × (resize b n ≡ some b')
      × (contents b' ≡ newest n (contents b))
      × IsValid b'
      × (length b'.buffer ≡ n)
unfolding resize
contents-resize b n v = elim (Bool-cases (ltb (size b) n)) [
  | inl e ↦
      let (run, part) = resized_room b n v (ground arith) in
      let slots = length-replicate {A = Option SpanData} n none in
      let buffer : List (Option SpanData) = copy (replicate n none) 0 (contents b) in
      let places = length-copy (replicate n none) 0 (contents b) ∙ slots in
      (
        record b { buffer = buffer; next_index = size b; overflow = false },
        rw (e, run, resize) refl,
        unfold contents in
            part ∙ sym (newest_room n (contents b) (rw (← size-contents b v) (ground arith))),
        ground arith,
        places,
      )
  | inr e ↦
      let run = resized_full b n v (ground arith) in
      let buffer : List (Option SpanData) = newest n (contents b) in
      (
        record b { buffer = buffer; next_index = 0; overflow = true },
        rw (e, run, resize) refl,
        unfold contents in append-nil buffer,
        omega arith,
        ground (arith, length-newest n (contents b), size-contents b v),
      )
]
