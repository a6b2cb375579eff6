-- ===== src/TagEncoding/Laws.antt =====
-- What the buffer holds: the encodings of the values written, in order, and they read back.
use Prim.Native.Nat.add
use opencensus_go.Buffer.{copy, grow, set-copy, take-copy, take-copy-grow, length-copy, grow_room}
use opencensus_go.TagEncoding.{Values, write_value, read_value, bytes, write_all, read_all}
use opencensus_go.Prelude.{
  ℕ, ◌+◌, ◌%◌, ◌≤◌, ◌<◌, ◌≡◌, refl, sym, ap, ◌∙◌, List, [], ◌∷◌, ◌++◌, Option, none, some, arith,
  Bytes, map, ◌==◌, length, set, take, drop, All, append_assoc, append-nil, length-append,
  length-take, replicate, take_all, take-length-append, get_elem?, get_elem?-append, ◌⊎◌, nat_eq,
  Bool-cases, inl, inr,
}

-- The bytes of one value, without a buffer.
unfoldable pub encode_value : Bytes → Bytes
encode_value v = length v % 256 ∷ take (length v % 256) v

abbrev pub encode_values : List Bytes → Bytes
encode_values [] = []
encode_values (v ∷ vs) = encode_value v ++ encode_values vs

-- The write position lies within the buffer.
abbrev pub IsValid : Values → Type 0
IsValid vb = vb.write_index ≤ length vb.buffer

one_byte :
    (buf : Bytes) (i b n : ℕ)
    → i ≤ length buf
    → (take (i + 1) (set (grow buf i (1 + n)) i b) ≡ take i buf ++ (b ∷ []))
      × (i + 1 + n ≤ length (set (grow buf i (1 + n)) i b))
one_byte buf i b n h = (
  rw (set-copy (grow buf i (1 + n)) i b) (take-copy-grow buf i (1 + n) (b ∷ []) h (omega arith)),
  rw (set-copy (grow buf i (1 + n)) i b)
      (omega (arith, grow_room buf i (1 + n) h, length-copy (grow buf i (1 + n)) i (b ∷ []))),
)

length-head : (v : Bytes) → length (take (length v % 256) v) ≡ length v % 256
length-head v = omega (arith, length-take (length v % 256) v)

-- The length byte and then the value: the two writes of `write_value`.
two_writes :
    (buf : Bytes) (i : ℕ) (v : Bytes)
    → i ≤ length buf
    → let size = length v % 256 in
      let first = set (grow buf i (1 + size)) i size in
      (take (i + 1 + size) (copy first (i + 1) (take size v)) ≡ take i buf ++ encode_value v)
      × (i + 1 + size ≤ length (copy first (i + 1) (take size v)))
unfolding encode_value
two_writes buf i v h =
    let size = length v % 256 in
    let first : Bytes = set (grow buf i (1 + size)) i size in
    let (head, room) = one_byte buf i size size h in
    let room' : i + 1 + length (take size v) ≤ length first = omega (arith, length-head v) in
    let tail = take-copy first (i + 1) (take size v) room' in
    (
      rw (length-head v) at tail ∙ rw head (append_assoc (take i buf) (size ∷ []) (take size v)),
      omega (arith, length-copy first (i + 1) (take size v), length-head v),
    )

-- A write appends the value's encoding to what `bytes` returns, and stays within the buffer.
pub bytes-write_value :
    (vb : Values) (v : Bytes)
    → IsValid vb
    → (bytes (write_value vb v) ≡ bytes vb ++ encode_value v) × IsValid (write_value vb v)
unfolding bytes write_value
bytes-write_value vb v h =
    let size = length v % 256 in
    elim (Bool-cases (size == 0)) [
      | inl e ↦
          let (head, room) = one_byte vb.buffer vb.write_index size size h in
          rw e (unfold encode_value in ground (arith, head, room), omega arith)
      | inr e ↦ rw e (two_writes vb.buffer vb.write_index v h)
    ]

pub bytes-write_all :
    (vb : Values) (vs : List Bytes)
    → IsValid vb
    → (bytes (write_all vb vs) ≡ bytes vb ++ encode_values vs) × IsValid (write_all vb vs)
unfolding write_all
bytes-write_all vb [] h = (sym (append-nil (bytes vb)), h)
bytes-write_all vb (v ∷ vs) h =
    let (head, valid) = bytes-write_value vb v h in
    let (tail, valid') = bytes-write_all (write_value vb v) vs valid in
    (tail ∙ rw head (append_assoc (bytes vb) (encode_value v) (encode_values vs)), valid')

-- What `ReadValue` makes of a value: an empty one comes back as nil.
abbrev pub present : Bytes → Option Bytes
present [] = none
present (b ∷ bs) = some (b ∷ bs)

abbrev pub IsShort : Bytes → Type 0
IsShort v = length v < 256

encode_value_short : (v : Bytes) → IsShort v → encode_value v ≡ length v ∷ v
unfolding encode_value
encode_value_short v h =
    let e : length v % 256 ≡ length v = omega arith in
    rw e (ap (◌∷◌ (length v)) (take_all (length v) v (omega arith)))

drop_suc-append :
    (front : Bytes) (b : ℕ) (rest : Bytes) → drop (length front + 1) (front ++ b ∷ rest) ≡ rest
drop_suc-append [] b rest = refl
drop_suc-append (x ∷ xs) b rest = rw (add.suc (length xs) 1) (drop_suc-append xs b rest)

present_cases :
    (v : Bytes) → ((length v ≡ 0) × (present v ≡ none)) ⊎ ((0 < length v) × (present v ≡ some v))
present_cases [] = inl (refl, refl)
present_cases (b ∷ bs) = inr (omega arith, refl)

-- A reader in front of an encoded value returns it and moves behind it.
read_value-encode :
    (vb : Values) (front v rest : Bytes)
    → IsShort v
    → vb.buffer ≡ front ++ (encode_value v ++ rest)
    → vb.read_index ≡ length front
    → read_value vb ≡ some (present v, record vb { read_index = length (front ++ encode_value v) })
unfolding read_value
read_value-encode vb front v rest h eb ei = ground (
  arith,
  facts.0,
  facts.1,
  take-length-append v rest,
  ap length eb,
  length-append front (encode_value v ++ rest),
  length-append (encode_value v) rest,
  length-append front (encode_value v),
  encode_value_short v h,
  present_cases v,
)
  where
    facts :
        (get_elem? vb.buffer vb.read_index ≡ some (length v))
        × (drop (vb.read_index + 1) vb.buffer ≡ v ++ rest)
    facts =
        rw (eb, ei, encode_value_short v h)
          (
            get_elem?-append front (length v) (v ++ rest),
            drop_suc-append front (length v) (v ++ rest),
          )

read_all-encode_values :
    (vb : Values) (front : Bytes) (vs : List Bytes) (rest : Bytes)
    → All IsShort vs
    → vb.buffer ≡ front ++ (encode_values vs ++ rest)
    → vb.read_index ≡ length front
    → read_all (length vs) vb
      ≡ some (map present vs, record vb { read_index = length (front ++ encode_values vs) })
unfolding read_all
read_all-encode_values vb front [] rest h eb ei = rw append-nil (ground arith)
read_all-encode_values vb front (v ∷ vs) rest h eb ei =
    rw
      (
        read_value-encode vb front v (encode_values vs ++ rest) h.0
            (eb ∙ ap (◌++◌ front) (append_assoc (encode_value v) (encode_values vs) rest)) ei,
        read_all,
      )
      (rw
        (
          read_all-encode_values (record vb { read_index = length (front ++ encode_value v) })
              (front ++ encode_value v) vs rest h.1 (eb ∙ simp append_assoc) refl,
          read_all,
        )
        (rw (append_assoc front (encode_value v) (encode_values vs)) refl))

-- A fresh buffer of `n` zero bytes, and a reader at the start of a byte string.
abbrev pub writer : ℕ → Values
writer n = record { buffer = replicate n 0; write_index = 0; read_index = 0 }

abbrev pub reader : Bytes → Values
reader s = record { buffer = s; write_index = 0; read_index = 0 }

-- Values below 256 bytes written one after the other into a fresh buffer of any size, and read
-- from what `bytes` returns, come back in order, an empty one as nil; the reader then stands at the
-- end.
pub read_all-write_all :
    (n : ℕ) (vs : List Bytes)
    → All IsShort vs
    → let s = bytes (write_all (writer n) vs) in
      read_all (length vs) (reader s)
      ≡ some (map present vs, record (reader s) { read_index = length s })
unfolding bytes
read_all-write_all n vs h =
    let e = (bytes-write_all (writer n) vs (omega arith)).0 in
    rw e (read_all-encode_values (reader (encode_values vs)) [] vs [] h (sym (append-nil _)) refl)
