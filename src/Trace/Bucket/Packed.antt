-- ===== src/Trace/Bucket/Packed.antt =====
-- The spans of a bucket stand in its first places, and behind them the places are empty.
use opencensus_go.Buffer.{copy}
use opencensus_go.Trace.{SpanData}
use opencensus_go.Trace.Bucket.{Bucket, make_bucket, add, store, size, resize}
use opencensus_go.Trace.Bucket.Laws.{contents, IsValid, size-contents}
use opencensus_go.Trace.Bucket.Resize.{resized_room, resized_full}
use opencensus_go.Prelude.{
  ℕ, zero, suc, ◌+◌, ◌-◌, ◌<◌, ◌≡◌, List, [], ◌∷◌, Option, none, some, ltb, ◌==◌, nat_eq, length,
  set, take, drop, replicate, newest, length-set, All, All-append, Bool-cases, inl, inr, arith,
  true, false,
}

abbrev IsFull : Option SpanData → Type 0
IsFull none = ⊥
IsFull (some sd) = Unit {0}

-- The first `k` places hold a span, or all if there are fewer, and the others none.
abbrev pub Packed : ℕ → List (Option SpanData) → Type 0
Packed k [] = Unit {0}
Packed zero (none ∷ buf) = Packed zero buf
Packed zero (some sd ∷ buf) = ⊥
Packed (suc k) (none ∷ buf) = ⊥
Packed (suc k) (some sd ∷ buf) = Packed k buf

abbrev pub IsPacked : Bucket → Type 0
IsPacked b = Packed (size b) b.buffer

Packed-replicate : (n : ℕ) → Packed 0 (replicate n none)
Packed-replicate zero = tt
Packed-replicate (suc n) = Packed-replicate n

pub make_bucket-IsPacked : (n : ℕ) → IsPacked (make_bucket n)
unfolding make_bucket size
make_bucket-IsPacked n = Packed-replicate n

set_next :
    (k : ℕ) (buf : List (Option SpanData)) (sd : SpanData)
    → Packed k buf
    → Packed (suc k) (set buf k (some sd))
set_next k [] sd h = tt
set_next zero (none ∷ buf) sd h = h
set_next zero (some x ∷ buf) sd h = absurd h
set_next (suc k) (none ∷ buf) sd h = absurd h
set_next (suc k) (some x ∷ buf) sd h = set_next k buf sd h

set_within :
    (k i : ℕ) (buf : List (Option SpanData)) (sd : SpanData)
    → i < k
    → Packed k buf
    → Packed k (set buf i (some sd))
set_within k i [] sd l h = tt
set_within zero i (x ∷ buf) sd l h = absurd (omega (arith, l))
set_within (suc k) i (none ∷ buf) sd l h = absurd h
set_within (suc k) zero (some x ∷ buf) sd l h = h
set_within (suc k) (suc i) (some x ∷ buf) sd l h = set_within k i buf sd (omega (arith, l)) h

store-IsPacked :
    (b : Bucket) (sd : SpanData)
    → IsValid b
    → 0 < length b.buffer
    → IsPacked b
    → IsPacked (store b sd)
unfolding store size
store-IsPacked b sd v room h =
    let buf = set b.buffer b.next_index (some sd) in
    let same = length-set b.buffer b.next_index (some sd) in
    elim (Bool-cases b.overflow) [
      | inl o ↦
          let full : Packed (length b.buffer) b.buffer = rw o at h in
          let kept : Packed (length buf) buf =
            rw same (set_within (length b.buffer) b.next_index b.buffer sd (omega arith) full) in
          elim (Bool-cases (b.next_index + 1 == length buf)) [
            | inl e ↦ rw e kept
            | inr e ↦ rw (e, o) kept
          ]
      | inr o ↦
          let part : Packed b.next_index b.buffer = rw o at h in
          let next : suc b.next_index ≡ b.next_index + 1 = omega arith in
          let more : Packed (b.next_index + 1) buf =
            rw (← next) (set_next b.next_index b.buffer sd part) in
          elim (Bool-cases (b.next_index + 1 == length buf)) [
            | inl e ↦
                let all : b.next_index + 1 ≡ length buf = ground arith in rw e (rw all at more)
            | inr e ↦ rw (e, o) more
          ]
    ]

pub add-IsPacked : (b : Bucket) (sd : SpanData) → IsValid b → IsPacked b → IsPacked (add b sd)
unfolding add
add-IsPacked b sd v h = elim (Bool-cases (ltb sd.end_time b.next_time)) [
  | inl e ↦ rw e h
  | inr e ↦ elim (Bool-cases (length b.buffer == 0)) [
    | inl z ↦ rw (e, z) h
    | inr z ↦ rw (e, z) (store-IsPacked b sd v (ground arith) h)
  ]
]

take-IsFull : (k : ℕ) (buf : List (Option SpanData)) → Packed k buf → All IsFull (take k buf)
take-IsFull zero buf h = tt
take-IsFull (suc k) [] h = tt
take-IsFull (suc k) (none ∷ buf) h = absurd h
take-IsFull (suc k) (some x ∷ buf) h = (tt, take-IsFull k buf h)

All-drop : (k : ℕ) (buf : List (Option SpanData)) → All IsFull buf → All IsFull (drop k buf)
All-drop zero buf h = h
All-drop (suc k) [] h = tt
All-drop (suc k) (x ∷ buf) h = All-drop k buf h.1

All-take : (k : ℕ) (buf : List (Option SpanData)) → All IsFull buf → All IsFull (take k buf)
All-take zero buf h = tt
All-take (suc k) [] h = tt
All-take (suc k) (x ∷ buf) h = (h.0, All-take k buf h.1)

Packed-IsFull : (buf : List (Option SpanData)) → Packed (length buf) buf → All IsFull buf
Packed-IsFull [] h = tt
Packed-IsFull (none ∷ buf) h = absurd h
Packed-IsFull (some x ∷ buf) h = (tt, Packed-IsFull buf h)

full-Packed : (buf : List (Option SpanData)) → All IsFull buf → Packed (length buf) buf
full-Packed [] h = tt
full-Packed (none ∷ buf) h = absurd h.0
full-Packed (some x ∷ buf) h = full-Packed buf h.1

contents-IsFull : (b : Bucket) → IsPacked b → All IsFull (contents b)
unfolding contents size
contents-IsFull b h = elim (Bool-cases b.overflow) [
  | inl o ↦
      let full = Packed-IsFull b.buffer (rw o at h) in
      rw o (
        All-append IsFull (drop b.next_index b.buffer) (take b.next_index b.buffer)
          (All-drop b.next_index b.buffer full) (All-take b.next_index b.buffer full))
  | inr o ↦ rw o (take-IsFull b.next_index b.buffer (rw o at h))
]

copy-Packed :
    (n : ℕ) (xs : List (Option SpanData))
    → All IsFull xs
    → Packed (length xs) (copy (replicate n none) 0 xs)
unfolding copy
copy-Packed zero [] h = tt
copy-Packed zero (x ∷ xs) h = tt
copy-Packed (suc n) [] h = Packed-replicate (suc n)
copy-Packed (suc n) (none ∷ xs) h = absurd h.0
copy-Packed (suc n) (some x ∷ xs) h = copy-Packed n xs h.1

-- The bucket that `resize` makes if there is room for all spans, and if there is not.
new_room :
    (b : Bucket) (n : ℕ)
    → IsValid b
    → All IsFull (contents b)
    → IsPacked (record b {
      buffer = copy (replicate n none) 0 (contents b);
      next_index = size b;
      overflow = false;
    })
new_room b n v full =
    let part : Packed (size b) (copy (replicate n none) 0 (contents b)) =
      rw (size-contents b v) (copy-Packed n (contents b) full) in
    unfold size in part

new_full :
    (b : Bucket) (n : ℕ)
    → All IsFull (newest n (contents b))
    → IsPacked (record b { buffer = newest n (contents b); next_index = 0; overflow = true })
unfolding size
new_full b n full = full-Packed (newest n (contents b)) full

pub resize-IsPacked :
    (b b' : Bucket) (n : ℕ) → IsValid b → IsPacked b → resize b n ≡ some b' → IsPacked b'
unfolding resize
resize-IsPacked b b' n v h e =
    let full = contents-IsFull b h in
    elim (Bool-cases (ltb (size b) n)) [
      | inl l ↦
          let run = (resized_room b n v (ground arith)).0 in
          let made = rw (l, run, resize) at e in
          let same : record b {
            buffer = copy (replicate n none) 0 (contents b);
            next_index = size b;
            overflow = false;
          }
              ≡ b' =
            cc in
          rw (← same) (new_room b n v full)
      | inr l ↦
          let run = resized_full b n v (ground arith) in
          let made = rw (l, run, resize) at e in
          let same : record b { buffer = newest n (contents b); next_index = 0; overflow = true }
              ≡ b' =
            cc in
          rw (← same) (new_full b n (All-drop (length (contents b) - n) (contents b) full))
    ]
