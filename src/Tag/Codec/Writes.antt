-- ===== src/Tag/Codec/Writes.antt =====
-- What the encoder's buffer holds: the encodings of the tags that propagate, in order.
use opencensus_go.Buffer.{copy, grow, set-copy, take-copy, take-copy-grow, length-copy, grow_room}
use opencensus_go.Tag.{Map, Key, propagates}
use opencensus_go.Tag.Varint.{put_uvarint, length-put_uvarint}
use opencensus_go.Tag.Codec.{
  EncoderGrpc, write_byte, write_bytes_with_varint_len, write_tag_string, bytes, encode_entries,
  encode,
}
use opencensus_go.Prelude.{
  ℕ, ◌+◌, ◌≤◌, ◌≡◌, refl, sym, ap, ◌∙◌, [], ◌∷◌, ◌++◌, some, arith, Bytes, Bool, true, false,
  replicate, if◌then◌else◌, length, take, append_assoc, append-nil,
}

-- The encodings of a string, of a tag and of a map, without a buffer.
unfoldable pub encode_string : Bytes → Bytes
encode_string s = put_uvarint 10 (length s) ++ s

unfoldable pub encode_tag : Key → Bytes → Bytes
encode_tag k v = 0 ∷ (encode_string k ++ encode_string v)

abbrev pub encode_tags : Map → Bytes
encode_tags [] = []
encode_tags ((k, v) ∷ m) = (if propagates v then encode_tag k v.value else []) ++ encode_tags m

abbrev pub IsValid : EncoderGrpc → Type 0
IsValid eg = eg.write_idx ≤ length eg.buf

-- `eg'` comes from `eg` by writing `s`.
record Appends (eg : EncoderGrpc) (s : Bytes) (eg' : EncoderGrpc) : Type 0 where
  written : bytes eg' ≡ bytes eg ++ s
  valid : IsValid eg'

Appends-trans :
    {a b c : EncoderGrpc} (s t : Bytes) → Appends a s b → Appends b t c → Appends a (s ++ t) c
Appends-trans {a} s t p q = record {
  written = q.written ∙ rw (p.written) (append_assoc (bytes a) s t);
  valid = q.valid;
}

write_byte-Appends : (eg : EncoderGrpc) (b : ℕ) → IsValid eg → Appends eg (b ∷ []) (write_byte eg b)
unfolding write_byte bytes
write_byte-Appends eg b h = rw (set-copy (grow eg.buf eg.write_idx 1) eg.write_idx b) (record {
  written = take-copy-grow eg.buf eg.write_idx 1 (b ∷ []) h (omega arith);
  valid = omega (
    arith,
    grow_room eg.buf eg.write_idx 1 h,
    length-copy (grow eg.buf eg.write_idx 1) eg.write_idx (b ∷ []),
  );
})

two_copies :
    (buf : Bytes) (i n : ℕ) (s t : Bytes)
    → i ≤ length buf
    → length s + length t ≤ n
    → let grown = grow buf i n in
      (take (i + length s + length t) (copy (copy grown i s) (i + length s) t)
        ≡ take i buf ++ (s ++ t))
      × (i + length s + length t ≤ length (copy (copy grown i s) (i + length s) t))
two_copies buf i n s t h k =
    let grown : Bytes = grow buf i n in
    let room : i + n ≤ length grown = grow_room buf i n h in
    let size : length (copy grown i s) ≡ length grown = length-copy grown i s in
    (
      take-copy (copy grown i s) (i + length s) t (omega arith)
          ∙ rw (take-copy-grow buf i n s h (omega arith)) (append_assoc (take i buf) s t),
      omega (arith, length-copy (copy grown i s) (i + length s) t),
    )

write_bytes-Appends :
    (eg : EncoderGrpc) (s : Bytes)
    → IsValid eg
    → Appends eg (encode_string s) (write_bytes_with_varint_len eg s)
unfolding write_bytes_with_varint_len bytes encode_string
write_bytes-Appends eg s h =
    let (w, v) =
      two_copies eg.buf eg.write_idx (10 + length s) (put_uvarint 10 (length s)) s h
        (omega (arith, length-put_uvarint 10 (length s))) in
    record { written = w; valid = v }

write_tag_string-Appends :
    (eg : EncoderGrpc) (k v : Bytes)
    → IsValid eg
    → Appends eg (encode_tag k v) (write_tag_string eg k v)
unfolding write_tag_string encode_tag
write_tag_string-Appends eg k v h =
    let a = write_byte-Appends eg 0 h in
    let b = write_bytes-Appends (write_byte eg 0) k a.valid in
    let c = write_bytes-Appends (write_bytes_with_varint_len (write_byte eg 0) k) v b.valid in
    Appends-trans (0 ∷ []) (encode_string k ++ encode_string v) a
      (Appends-trans (encode_string k) (encode_string v) b c)

-- One round of the loop, whichever way its test goes.
round-Appends :
    (b : Bool) (eg : EncoderGrpc) (k v : Bytes)
    → IsValid eg
    → Appends eg (if b then encode_tag k v else []) (if b then write_tag_string eg k v else eg)
round-Appends true eg k v h = write_tag_string-Appends eg k v h
round-Appends false eg k v h = record { written = sym (append-nil (bytes eg)); valid = h }

encode_entries-Appends :
    (eg : EncoderGrpc) (m : Map) → IsValid eg → Appends eg (encode_tags m) (encode_entries eg m)
unfolding encode_entries
encode_entries-Appends eg [] h = record { written = sym (append-nil (bytes eg)); valid = h }
encode_entries-Appends eg ((k, v) ∷ m) h =
    let a = round-Appends (propagates v) eg k v.value h in
    Appends-trans (if propagates v then encode_tag k v.value else []) (encode_tags m) a (
      encode_entries-Appends (if propagates v then write_tag_string eg k v.value else eg) m a.valid)

-- The buffer with its growth and its positions writes the version byte and then, for each tag of
-- unlimited TTL, a type byte and the key and the value behind their lengths.
pub encode-encode_tags : (m : Map) → encode (some m) ≡ some (0 ∷ encode_tags m)
unfolding encode
encode-encode_tags m =
    let eg : EncoderGrpc = record { buf = replicate (length m) 0; write_idx = 0; read_idx = 0 } in
    let first = write_byte-Appends eg 0 (omega arith) in
    let all = encode_entries-Appends (write_byte eg 0) m first.valid in
    ap some (all.written ∙ rw (first.written) (unfold bytes in refl))
