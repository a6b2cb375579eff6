-- ===== src/Metric/Labels/RoundTrip.antt =====
-- Label values read back from a map key.
use opencensus_go.Metric.{LabelValue}
use opencensus_go.Metric.Labels.{
  label_bytes, encode_label_vals, missing, label_of, decode_from, decode_label_vals,
}
use opencensus_go.TagEncoding.{Values, read_all, read_value, bytes}
use opencensus_go.TagEncoding.Laws.{
  read_all-write_all, IsShort, present, writer, bytes-write_all, encode_value, encode_values,
}
use opencensus_go.Prelude.{
  suc, ◌%◌, ◌≡◌, ◌<◌, refl, sym, ◌∙◌, List, [], ◌∷◌, map, true, none, some, length, length-map, All,
  Option-cases, Bool-cases, inl, inr, nat_eq, if◌then◌else◌, arith,
}

-- A value that is absent has no text.
abbrev pub canonical : LabelValue → LabelValue
canonical v = if v.present then v else missing

-- A value of at most 254 bytes.
abbrev pub IsShortLabel : LabelValue → Type 0
IsShortLabel v = length v.value < 255

label_bytes-IsShort :
    (vs : List LabelValue) → All IsShortLabel vs → All IsShort (map label_bytes vs)
label_bytes-IsShort [] h = tt
label_bytes-IsShort (v ∷ vs) h = (ground (arith, h.0), label_bytes-IsShort vs h.1)

label_of-label_bytes : (v : LabelValue) → label_of (present (label_bytes v)) ≡ some (canonical v)
unfolding label_of
label_of-label_bytes v = elim (Bool-cases v.present) [ inl e ↦ rw e refl | inr e ↦ rw e refl ]

decode_from-read_all :
    (vs : List LabelValue) (vb end : Values)
    → read_all (length vs) vb ≡ some (map present (map label_bytes vs), end)
    → decode_from (length vs) vb ≡ some (map canonical vs)
unfolding decode_from read_all
decode_from-read_all [] vb end h = refl
decode_from-read_all (v ∷ vs) vb end h = elim (Option-cases (read_value vb)) [
  | inl e ↦ absurd (let no = rw (e, read_all) at h in cc)
  | inr (read, e) ↦ elim (Option-cases (read_all (length vs) read.1)) [
    | inl f ↦ absurd (let no = rw (e, f, read_all) at h in cc)
    | inr (rest, f) ↦
        let same = rw (e, f, read_all) at h in
        let first : read.0 ≡ present (label_bytes v) = cc in
        let others : rest.0 ≡ map present (map label_bytes vs) = cc in
        let run = decode_from-read_all vs read.1 rest.1 (rw (← others) f) in
        rw (e, first, label_of-label_bytes v, run, decode_from) refl
  ]
]

-- Label values of at most 254 bytes come back from the map key that they are encoded to, an absent
-- one without its text.
pub decode_label_vals-encode :
    (vs : List LabelValue)
    → All IsShortLabel vs
    → decode_label_vals (length vs) (encode_label_vals vs) ≡ some (map canonical vs)
unfolding decode_label_vals encode_label_vals
decode_label_vals-encode vs h =
    let run = read_all-write_all 0 (map label_bytes vs) (label_bytes-IsShort vs h) in
    decode_from-read_all vs _ _ (rw (length-map label_bytes vs) at run)

-- A value of 255 bytes is encoded as no value at all, since its length with the byte before it is
-- 0 modulo 256.
encode_value_long :
    (v : LabelValue)
    → v.present ≡ true
    → length v.value ≡ 255
    → encode_value (label_bytes v) ≡ 0 ∷ []
unfolding encode_value
encode_value_long v p h =
    let size : suc (length v.value) % 256 ≡ 0 = omega arith in rw (p, size) refl

encoded : (vs : List LabelValue) → encode_label_vals vs ≡ encode_values (map label_bytes vs)
unfolding encode_label_vals bytes
encoded vs = (bytes-write_all (writer 0) (map label_bytes vs) (omega arith)).0

encoded_long :
    (v : LabelValue) (vs : List LabelValue)
    → v.present ≡ true
    → length v.value ≡ 255
    → encode_label_vals (v ∷ vs) ≡ 0 ∷ encode_values (map label_bytes vs)
encoded_long v vs p h = encoded (v ∷ vs) ∙ rw (encode_values, encode_value_long v p h) refl

-- A label value of 255 bytes in front of others makes decoding panic, so a metric with an entry of
-- that label value cannot be read; and all values of that length have the same map key, so that
-- they share one entry.
pub decode_label_vals_long :
    (v w : LabelValue) (vs : List LabelValue)
    → v.present ≡ true
    → length v.value ≡ 255
    → w.present ≡ true
    → length w.value ≡ 255
    → (decode_label_vals (suc (length vs)) (encode_label_vals (v ∷ vs)) ≡ none)
      × (encode_label_vals (w ∷ vs) ≡ encode_label_vals (v ∷ vs))
unfolding decode_label_vals decode_from read_value
decode_label_vals_long v w vs p h q k =
    (rw (encoded_long v vs p h) refl, encoded_long w vs q k ∙ sym (encoded_long v vs p h))
