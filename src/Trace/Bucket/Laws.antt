-- ===== src/Trace/Bucket/Laws.antt =====
-- The circular buffer refines a window over the accepted spans, oldest first.

use opencensus_go.Trace.{SpanData}
use opencensus_go.Trace.Bucket.{Bucket, make_bucket, add, store, size, span}
use opencensus_go.Prelude.{
  ℕ, suc, ◌+◌, ◌-◌, ◌≤◌, ◌<◌, ◌≡◌, refl, sym, ap, ◌∙◌, List, [], ◌∷◌, ◌++◌, true, false, Option,
  some, ltb, ◌==◌, nat_eq, if◌then◌else◌, length, get_elem?, set, take, drop, newest, newest_room,
  newest_append_full, newest_append_room, length-append, length-take, length-drop, length-set,
  take-suc-set, drop-suc-set, drop-drop, get_elem?-drop, get_elem?-take, get_elem?_append_left,
  get_elem?_append_right, take_all, drop_all, append-nil, append_assoc, drop_append_left,
  Bool-cases, inl, inr, arith,
}

-- The stored spans, oldest first.
unfoldable pub contents : Bucket → List (Option SpanData)
contents b =
    if b.overflow
    then drop b.next_index b.buffer ++ take b.next_index b.buffer
    else take b.next_index b.buffer

-- The next place lies in the buffer, or there is no place at all.
abbrev pub IsValid : Bucket → Type 0
IsValid b = b.next_index ≤ length b.buffer - 1

pub make_bucket-IsValid : (n : ℕ) → IsValid (make_bucket n) × (contents (make_bucket n) ≡ [])
unfolding make_bucket contents
make_bucket-IsValid n = (omega arith, refl)

pub size-contents : (b : Bucket) → IsValid b → size b ≡ length (contents b)
unfolding size contents
size-contents b v = elim (Bool-cases b.overflow) [
  | inl e ↦
      rw (e, length-append (drop b.next_index b.buffer) (take b.next_index b.buffer))
        (omega (arith, length-drop b.next_index b.buffer, length-take b.next_index b.buffer))
  | inr e ↦ rw e (omega (arith, length-take b.next_index b.buffer))
]

module _ {A : Type 0} where
  -- Indexing a circular buffer that begins at `k`.
  rotated :
      (buf : List A) (k i : ℕ)
      → k ≤ length buf
      → i < length buf
      → get_elem? (drop k buf ++ take k buf) i ≡ (
          if ltb i (length buf - k)
          then get_elem? buf (k + i)
          else get_elem? buf (k + i - length buf))
  rotated buf k i hk hi = elim (Bool-cases (ltb i (length buf - k))) [
    | inl e ↦
        let inside : i < length (drop k buf) = ground (arith, length-drop k buf) in
        rw e (get_elem?_append_left (drop k buf) (take k buf) i inside ∙ get_elem?-drop buf k i)
    | inr e ↦
        let j : ℕ = k + i - length buf in
        let outside : i ≡ length (drop k buf) + j = ground (arith, length-drop k buf) in
        rw e (
          ap (get_elem? (drop k buf ++ take k buf)) outside
          ∙ get_elem?_append_right (drop k buf) (take k buf) j
          ∙ get_elem?-take buf k j (ground (arith, length-drop k buf)))
  ]

  written :
      (buf : List A) (i : ℕ) (v : A)
      → i < length buf
      → take (i + 1) (set buf i v) ≡ take i buf ++ (v ∷ [])
  written buf i v h = let e : i + 1 ≡ suc i = omega arith in rw e (take-suc-set buf i v h)

  unwritten : (buf : List A) (i : ℕ) (v : A) → drop (i + 1) (set buf i v) ≡ drop 1 (drop i buf)
  unwritten buf i v =
      let e : i + 1 ≡ suc i = omega arith in rw (drop-drop 1 i buf, e) (drop-suc-set buf i v)

  -- The window after one more item.
  window_full :
      (n : ℕ) (c : List A) (v : A)
      → length c ≡ n
      → 0 < n
      → newest n (c ++ (v ∷ [])) ≡ drop 1 c ++ (v ∷ [])
  window_full n c v h p =
      newest_append_full n c v (omega arith) p
      ∙ ap (λ (t : List A). drop 1 t ++ (v ∷ [])) (newest_room n c (omega arith))

  window_room :
      (n : ℕ) (c : List A) (v : A) → length c < n → newest n (c ++ (v ∷ [])) ≡ c ++ (v ∷ [])
  window_room n c v h =
      newest_append_room n c v h
      ∙ ap (λ (t : List A). t ++ (v ∷ [])) (newest_room n c (omega arith))

-- `span(i)` is the `i`-th stored span, oldest first.
pub span-contents :
    (b : Bucket) (i : ℕ) → IsValid b → i < size b → span b i ≡ get_elem? (contents b) i
unfolding span size contents
span-contents b i v h = elim (Bool-cases b.overflow) [
  | inl e ↦ rw e (sym (rotated b.buffer b.next_index i (omega arith) (rw e at h)))
  | inr e ↦ rw e (sym (get_elem?-take b.buffer b.next_index i (rw e at h)))
]

add_early : (b : Bucket) (s : SpanData) → s.end_time < b.next_time → add b s ≡ b
unfolding add
add_early b s h = ground arith

-- The write of `store` into a buffer that is not empty.
module _ (buf : List (Option SpanData)) (i : ℕ) (x : Option SpanData)
    (inside : i < length buf) where
  -- The write position was the last: the whole buffer is the part up to it.
  whole : (i + 1 == length (set buf i x)) ≡ true → set buf i x ≡ take i buf ++ (x ∷ [])
  whole e = sym (take_all (i + 1) (set buf i x) (ground arith)) ∙ written buf i x inside

  -- The oldest item leaves a circular buffer.
  without_oldest : drop 1 (drop i buf ++ take i buf) ≡ drop 1 (drop i buf) ++ take i buf
  without_oldest = drop_append_left 1 (drop i buf) (take i buf) (omega (arith, length-drop i buf))

  last_dropped : (i + 1 == length (set buf i x)) ≡ true → drop 1 (drop i buf) ≡ []
  last_dropped e = drop_all 1 (drop i buf) (ground (arith, length-drop i buf, length-set buf i x))

module _ (b : Bucket) (s : SpanData) (v : IsValid b) (room : 0 < length b.buffer) where
  store_full : b.overflow ≡ true → contents (store b s) ≡ drop 1 (contents b) ++ (some s ∷ [])
  unfolding store contents
  store_full e =
      let buf = b.buffer in
      let i = b.next_index in
      let inside : i < length buf = omega arith in
      let shift = without_oldest buf i (some s) inside in
      elim (Bool-cases (i + 1 == length (set buf i (some s)))) [
        | inl w ↦
            rw (w, e, shift, last_dropped buf i (some s) inside w)
              (append-nil (set buf i (some s)) ∙ whole buf i (some s) inside w)
        | inr w ↦
            rw (w, e, shift, unwritten buf i (some s), written buf i (some s) inside)
              (sym (append_assoc (drop 1 (drop i buf)) (take i buf) (some s ∷ [])))
      ]

  store_room : b.overflow ≡ false → contents (store b s) ≡ contents b ++ (some s ∷ [])
  unfolding store contents
  store_room e =
      let buf = b.buffer in
      let i = b.next_index in
      let inside : i < length buf = omega arith in
      elim (Bool-cases (i + 1 == length (set buf i (some s)))) [
        | inl w ↦ rw (w, e) (append-nil (set buf i (some s)) ∙ whole buf i (some s) inside w)
        | inr w ↦ rw (w, e) (written buf i (some s) inside)
      ]

  store-IsValid : IsValid (store b s) × (length (store b s).buffer ≡ length b.buffer)
  unfolding store
  store-IsValid = ground (arith, length-set b.buffer b.next_index (some s))

  size_full : b.overflow ≡ true → size b ≡ length b.buffer
  unfolding size
  size_full e = rw e

  size_room : b.overflow ≡ false → size b ≡ b.next_index
  unfolding size
  size_room e = rw e

  contents-store : contents (store b s) ≡ newest (length b.buffer) (contents b ++ (some s ∷ []))
  contents-store = elim (Bool-cases b.overflow) [
    | inl e ↦
        let full : length (contents b) ≡ length b.buffer = sym (size-contents b v) ∙ size_full e in
        store_full e ∙ sym (window_full (length b.buffer) (contents b) (some s) full room)
    | inr e ↦
        let space : length (contents b) < length b.buffer =
          rw (← size-contents b v, size_room e) (omega arith) in
        store_room e ∙ sym (window_room (length b.buffer) (contents b) (some s) space)
  ]

empty_of_length : (c : List (Option SpanData)) → length c ≡ 0 → c ≡ []
empty_of_length [] h = refl
empty_of_length (x ∷ c) h = absurd (omega arith)

no_room :
    (b : Bucket) (s : SpanData)
    → IsValid b
    → length b.buffer ≡ 0
    → (contents b ≡ []) × (newest (length b.buffer) (contents b ++ (some s ∷ [])) ≡ [])
unfolding size
no_room b s v h =
    let none_stored : size b ≡ 0 = ground arith in
    (
      empty_of_length (contents b) (sym (size-contents b v) ∙ none_stored),
      drop_all (length (contents b ++ (some s ∷ [])) - length b.buffer)
          (contents b ++ (some s ∷ [])) (omega arith),
    )

-- A span that comes before `next_time` is not stored. Any other one is, also if the buffer has
-- been full: the bucket then holds the newest spans, as many as it has places, oldest first.
pub contents-add :
    (b : Bucket) (s : SpanData)
    → IsValid b
    → (contents (add b s) ≡ (
        if ltb s.end_time b.next_time
        then contents b
        else newest (length b.buffer) (contents b ++ (some s ∷ []))))
      × IsValid (add b s)
      × (length (add b s).buffer ≡ length b.buffer)
unfolding add
contents-add b s v = elim (Bool-cases (ltb s.end_time b.next_time)) [
  | inl early ↦ rw early (refl, v, refl)
  | inr late ↦ elim (Bool-cases (length b.buffer == 0)) [
    | inl e ↦
        let (left, right) = no_room b s v (ground arith) in rw (late, e) (left ∙ sym right, v, refl)
    | inr e ↦
        let room : 0 < length b.buffer = ground arith in
        let kept = store-IsValid b s v room in
        rw (late, e) (contents-store b s v room, kept.0, kept.1)
  ]
]
