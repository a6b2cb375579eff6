-- ===== src/Tag/Codec/RoundTrip.antt =====
-- `Decode` after `Encode`, and the termination of the decoding loop.
use opencensus_go.Tag.{Result, ok, Key, Metadatas, TagContent, Map, propagates, ◌>>◌}
use mathlib.Core.Path.{subst}
use opencensus_go.Tag.Mutators.{upsert}
use opencensus_go.Tag.Mutators.Laws.{IsValid, IsValidEntry}
use opencensus_go.Tag.Codec.{
  EncoderGrpc, read_ended, decode_tag, decode_loop, decode_each, decoded_metadatas, upsert_handler,
  decode, encode,
}
use opencensus_go.Tag.Codec.Writes.{encode_tag, encode_tags, encode-encode_tags}
use opencensus_go.Tag.Codec.Reads.{at_end_of, decode-encode_tag}
use opencensus_go.Prelude.{
  ℕ, zero, suc, ◌+◌, ◌^◌, ◌≤◌, ◌<◌, ◌≡◌, refl, sym, ap, ◌∙◌, [], ◌∷◌, ◌++◌, none, some, arith,
  Bytes, true, false, length, All, append_assoc, append-nil, length-append, Bool-cases, inl, inr,
  filter_values, filter_values-IsMap, IsMap-append_none, insert_new, IsMap, lookup, ◌==◌, nat_eq,
  bytes_eq, int_beq_iff, negsuc,
}

pub read_ended-false :
    (eg : EncoderGrpc) (front : Bytes) (b : ℕ) (rest : Bytes)
    → read_ended (at_end_of front (b ∷ rest) eg) ≡ false
unfolding read_ended
read_ended-false eg front b rest = ground (arith, length-append front (b ∷ rest))

read_ended-true : (eg : EncoderGrpc) (front : Bytes) → read_ended (at_end_of front [] eg) ≡ true
unfolding read_ended
read_ended-true eg front = ground (arith, append-nil front)

length-encode_tag : (k : Key) (v : Bytes) → 1 ≤ length (encode_tag k v)
unfolding encode_tag
length-encode_tag k v = omega arith

-- The calls of the handler for the tags that propagate.
module _ {ℓ} {S : Type ℓ} (fn : Key → Bytes → Metadatas → S → S) where
  abbrev pub handle_all : Map → S → S
  handle_all [] s = s
  handle_all ((k, v) ∷ m) s = handle_all m (fn k v.value decoded_metadatas s)

  one_tag :
      (fuel : ℕ) (eg : EncoderGrpc) (front : Bytes) (k : Key) (v rest : Bytes) (s : S)
      → decode_tag (at_end_of front (encode_tag k v ++ rest) eg)
        ≡ ok (k, v, at_end_of (front ++ encode_tag k v) rest eg)
      → decode_loop fn (suc fuel) (at_end_of front (encode_tag k v ++ rest) eg) s
        ≡ decode_loop fn fuel
            (at_end_of (front ++ encode_tag k v) rest eg)
            (fn k v decoded_metadatas s)
  unfolding decode_loop encode_tag
  one_tag fuel eg front k v rest s h = rw (read_ended-false eg front 0 _, h, decode_loop)

  at_end :
      (fuel : ℕ) (eg : EncoderGrpc) (front : Bytes) (s : S)
      → 0 < fuel
      → decode_loop fn fuel (at_end_of front [] eg) s ≡ (s, ok tt)
  unfolding decode_loop
  at_end zero eg front s h = absurd (omega arith)
  at_end (suc fuel) eg front s h = rw (read_ended-true eg front, decode_loop)

  decode_loop-encode_tags :
      (m : Map) (fuel : ℕ) (eg : EncoderGrpc) (front : Bytes) (s : S)
      → All (λ e. IsValidEntry e.0 e.1) m
      → length (encode_tags m) < fuel
      → length (front ++ encode_tags m) < 2 ^ 63
      → decode_loop fn fuel (at_end_of front (encode_tags m) eg) s
        ≡ (handle_all (filter_values propagates m) s, ok tt)
  decode_loop-encode_tags m zero eg front s h hf hl = absurd (omega arith)
  decode_loop-encode_tags [] (suc fuel) eg front s h hf hl = at_end (suc fuel) eg front s hf
  decode_loop-encode_tags ((k, v) ∷ m) (suc fuel) eg front s h hf hl =
      elim (Bool-cases (propagates v)) [
        | inl e ↦
            let size : length (encode_tag k v.value ++ encode_tags m) < suc fuel = rw e at hf in
            let bound : length (front ++ (encode_tag k v.value ++ encode_tags m)) < 2 ^ 63 =
              rw e at hl in
            let tag =
              decode-encode_tag eg front k v.value (encode_tags m) h.0.name_valid h.0.value_valid
                bound in
            rw e (
              one_tag fuel eg front k v.value (encode_tags m) s tag
              ∙ decode_loop-encode_tags m fuel eg (front ++ encode_tag k v.value)
                  (fn k v.value decoded_metadatas s) h.1
                  (omega (
                    arith,
                    length-append (encode_tag k v.value) (encode_tags m),
                    length-encode_tag k v.value,
                  ))
                  (rw (append_assoc front (encode_tag k v.value) (encode_tags m)) bound))
        | inr e ↦
            let size : length (encode_tags m) < suc fuel = rw e at hf in
            let bound : length (front ++ encode_tags m) < 2 ^ 63 = rw e at hl in
            rw e (decode_loop-encode_tags m (suc fuel) eg front s h.1 size bound)
      ]

-- The handler gets the tags that propagate, in order, and no others, each with an unlimited TTL.
pub decode_each-encode {ℓ} :
    {S : Type ℓ} (fn : Key → Bytes → Metadatas → S → S) (m : Map) (s : S)
    → IsValid m
    → length (encode_tags m) + 1 < 2 ^ 63
    → decode_each fn (0 ∷ encode_tags m) s ≡ (handle_all fn (filter_values propagates m) s, ok tt)
unfolding decode_each
decode_each-encode fn m s h hl =
    let nonempty : (suc (length (encode_tags m)) == 0) ≡ false = ground arith in
    rw nonempty (
      decode_loop-encode_tags fn m (suc (length (encode_tags m)))
        (record { buf = []; write_idx = 0; read_idx = 0 }) (0 ∷ []) s h.entries (omega arith)
        (omega arith))

content_unlimited :
    (v : TagContent) → propagates v ≡ true → record { value = v.value; m = decoded_metadatas } ≡ v
unfolding decoded_metadatas
content_unlimited v e = ground (arith, int_beq_iff v.m.ttl.ttl (negsuc 0))

upsert_new :
    (k : Key) (v : TagContent) (n : Map)
    → propagates v ≡ true
    → lookup k n ≡ none
    → upsert_handler k v.value decoded_metadatas n ≡ n ++ ((k, v) ∷ [])
unfolding upsert
upsert_new k v n e h = rw (content_unlimited v e) (insert_new k v n h)

upsert_all :
    (m n : Map)
    → IsMap (n ++ filter_values propagates m)
    → handle_all upsert_handler (filter_values propagates m) n ≡ n ++ filter_values propagates m
upsert_all [] n h = sym (append-nil n)
upsert_all ((k, v) ∷ m) n h = elim (Bool-cases (propagates v)) [
  | inl e ↦
      let h' : IsMap (n ++ ((k, v) ∷ filter_values propagates m)) = rw e at h in
      let new = IsMap-append_none k v n (filter_values propagates m) h' in
      let rest = filter_values propagates m in
      let regroup = append_assoc n ((k, v) ∷ []) rest in
      rw e (
        ap (handle_all upsert_handler rest) (upsert_new k v n e new)
        ∙ upsert_all m (n ++ ((k, v) ∷ [])) (rw regroup h')
        ∙ regroup)
  | inr e ↦ rw e (upsert_all m n (rw e at h))
]

decode-decode_each :
    (s : Bytes) (m : Map) → decode_each upsert_handler s [] ≡ (m, ok tt) → decode s ≡ ok m
unfolding decode
decode-decode_each s m h =
    subst (λ (r : Map × Result (Unit {0})). (do r.1; ok r.0) ≡ ok m) (sym h) refl

-- Decoding what `Encode` wrote for a valid map (one entry a key, valid names and values) gives
-- back exactly its tags of unlimited TTL with their values and metadata, in the order of the loop
-- over the map. The encoding is shorter than 2 ^ 63 bytes, as every Go slice is.
pub decode-encode :
    (m : Map) (s : Bytes)
    → IsValid m
    → encode (some m) ≡ some s
    → length s < 2 ^ 63
    → decode s ≡ ok (filter_values propagates m)
decode-encode m s h e hl =
    let bytes : s ≡ 0 ∷ encode_tags m = cc (encode-encode_tags m) in
    let short : length (encode_tags m) + 1 < 2 ^ 63 = omega (arith, ap length bytes) in
    rw bytes (
      decode-decode_each _ _ (
        decode_each-encode upsert_handler m [] h short
        ∙ ap (λ (n : Map). (n, ok tt))
            (upsert_all m [] (filter_values-IsMap propagates m h.is_map))))
