-- ===== src/Tag/Codec/Reads.antt =====
-- What the reader makes of encoded strings and tags, and of lengths that are no int.
use opencensus_go.Tag.{Result, ok, err, panic, malformed_encoding, Key}
use opencensus_go.Tag.Validate.{check_key_name, check_value, new_key}
use opencensus_go.Tag.Varint.{put_uvarint, uvarint-put}
use opencensus_go.Tag.Codec.{EncoderGrpc, read_byte, read_bytes_with_varint_len, decode_tag}
use opencensus_go.Tag.Codec.Writes.{encode_string, encode_tag}
use opencensus_go.Prelude.{
  ℕ, ◌+◌, ◌-◌, ◌%◌, ◌^◌, ◌≤◌, ◌<◌, ◌≡◌, sym, ap, ◌∙◌, [], ◌∷◌, ◌++◌, arith, Bytes, true,
  if◌then◌else◌, length, get_elem?-append, take, drop, append_assoc, length-append,
  take-length-append, drop-length-append, leb, ltb,
}

-- A reader that stands behind `front`.
abbrev pub at_end_of : Bytes → Bytes → EncoderGrpc → EncoderGrpc
at_end_of front rest eg = record eg { buf = front ++ rest; read_idx = length front }

put_uvarint_nonempty : (v : ℕ) → 1 ≤ length (put_uvarint 10 v)
unfolding put_uvarint
put_uvarint_nonempty v = ground arith

drop_two : (front p t : Bytes) → drop (length p + length front) (front ++ (p ++ t)) ≡ t
drop_two front p t =
    let e : length p + length front ≡ length (front ++ p) = omega (arith, length-append front p) in
    rw (e, ← append_assoc front p t) (drop-length-append (front ++ p) t)

-- What the reader does with a length that it has read, `n` bytes long.
abbrev outcome : EncoderGrpc → ℕ → ℕ → Result (Bytes × EncoderGrpc)
outcome eg size n =
    let value_start = n + eg.read_idx in
    let value_end = (value_start + size) % 2 ^ 64 in
    if leb (2 ^ 63) value_end
    then panic
    else if ltb (length eg.buf) value_end
    then err malformed_encoding
    else if ltb value_end value_start
    then panic
    else ok (
      take (value_end - value_start) (drop value_start eg.buf),
      record eg { read_idx = value_end },
    )

read_size :
    (eg : EncoderGrpc) (front rest : Bytes) (size : ℕ)
    → size < 2 ^ 64
    → read_bytes_with_varint_len (at_end_of front (put_uvarint 10 size ++ rest) eg)
      ≡ outcome
          (at_end_of front (put_uvarint 10 size ++ rest) eg)
          size
          (length (put_uvarint 10 size))
unfolding read_bytes_with_varint_len
read_size eg front rest size h = ground (
  arith,
  length-append front (put_uvarint 10 size ++ rest),
  length-append (put_uvarint 10 size) rest,
  put_uvarint_nonempty size,
  drop-length-append front (put_uvarint 10 size ++ rest),
  uvarint-put size rest h,
)

-- An encoded string reads back, and the reader moves behind it.
pub read-encode_string :
    (eg : EncoderGrpc) (front s rest : Bytes)
    → length (front ++ (encode_string s ++ rest)) < 2 ^ 63
    → read_bytes_with_varint_len (at_end_of front (encode_string s ++ rest) eg)
      ≡ ok (s, at_end_of (front ++ encode_string s) rest eg)
unfolding encode_string
read-encode_string eg front s rest h =
    let p = put_uvarint 10 (length s) in
    let whole : length (front ++ (p ++ (s ++ rest)))
        ≡ length front + length p + length s + length rest =
      omega (
        arith,
        length-append front (p ++ (s ++ rest)),
        length-append p (s ++ rest),
        length-append s rest,
      ) in
    let size : length (front ++ (p ++ s)) ≡ length front + length p + length s =
      omega (arith, length-append front (p ++ s), length-append p s) in
    let bound : length front + length p + length s + length rest < 2 ^ 63 =
      rw (append_assoc p s rest, whole) at h in
    rw (append_assoc front (p ++ s) rest, append_assoc p s rest)
      (read_size eg front (s ++ rest) (length s) (omega arith)
        ∙ ground (arith, whole, size, drop_two front p (s ++ rest), take-length-append s rest))

-- A length of 2 ^ 63 or more is taken for a negative int: the call panics, whatever follows.
pub read_huge :
    (eg : EncoderGrpc) (front rest : Bytes) (size : ℕ)
    → length (front ++ (put_uvarint 10 size ++ rest)) < 2 ^ 63
    → 2 ^ 63 ≤ size
    → size < 2 ^ 64
    → read_bytes_with_varint_len (at_end_of front (put_uvarint 10 size ++ rest) eg) ≡ panic
read_huge eg front rest size h lo hi =
    read_size eg front rest size hi
    ∙ ground (
      arith,
      length-append front (put_uvarint 10 size ++ rest),
      length-append (put_uvarint 10 size) rest,
    )

pub read_byte-at_end_of :
    (eg : EncoderGrpc) (front : Bytes) (b : ℕ) (rest : Bytes)
    → read_byte (at_end_of front (b ∷ rest) eg) ≡ ok (b, at_end_of (front ++ (b ∷ [])) rest eg)
unfolding read_byte
read_byte-at_end_of eg front b rest = ground (
  arith,
  get_elem?-append front b rest,
  length-append front (b ∷ []),
  append_assoc front (b ∷ []) rest,
)

-- The bytes around a tag, split where the reader stands before the key and before the value.
before_key :
    (front : Bytes) (k : Key) (v rest : Bytes)
    → front ++ (encode_tag k v ++ rest)
      ≡ (front ++ (0 ∷ [])) ++ (encode_string k ++ (encode_string v ++ rest))
unfolding encode_tag
before_key front k v rest = simp append_assoc

before_value :
    (front : Bytes) (k : Key) (v rest : Bytes)
    → front ++ (encode_tag k v ++ rest)
      ≡ ((front ++ (0 ∷ [])) ++ encode_string k) ++ (encode_string v ++ rest)
unfolding encode_tag
before_value front k v rest = simp append_assoc

after_tag :
    (front : Bytes) (k : Key) (v : Bytes)
    → front ++ encode_tag k v ≡ ((front ++ (0 ∷ [])) ++ encode_string k) ++ encode_string v
unfolding encode_tag
after_tag front k v = simp append_assoc

-- An encoded tag with a valid key and value decodes, and the reader moves behind it.
pub decode-encode_tag :
    (eg : EncoderGrpc) (front : Bytes) (k : Key) (v rest : Bytes)
    → check_key_name k ≡ true
    → check_value v ≡ true
    → length (front ++ (encode_tag k v ++ rest)) < 2 ^ 63
    → decode_tag (at_end_of front (encode_tag k v ++ rest) eg)
      ≡ ok (k, v, at_end_of (front ++ encode_tag k v) rest eg)
unfolding decode_tag encode_tag new_key
decode-encode_tag eg front k v rest hk hv h =
    let hk' = rw (before_key front k v rest) at h in
    let hv' = rw (before_value front k v rest) at h in
    let front' : Bytes = front ++ (0 ∷ []) in
    rw
      (
        append_assoc (encode_string k) (encode_string v) rest,
        read_byte-at_end_of eg front 0 (encode_string k ++ (encode_string v ++ rest)),
        decode_tag,
      )
      (rw (read-encode_string eg front' k (encode_string v ++ rest) hk', decode_tag)
        (rw (read-encode_string eg (front' ++ encode_string k) v rest hv', hk, hv, decode_tag)
          (ap (λ (t : Bytes). ok (k, v, at_end_of t rest eg)) (sym (after_tag front k v)))))
