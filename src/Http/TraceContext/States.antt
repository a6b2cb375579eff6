-- ===== src/Http/TraceContext/States.antt =====
-- A tracestate read back from its header.
use opencensus_go.Http.TraceContext.{
  join, split, is_ows, trim_ows, read_pairs, tracestate_from_header, tracestate_to_header,
  entry_text,
}
use opencensus_go.Http.TraceContext.Texts.{
  Without, split_none, split_first, split-join, IsTrimmed, trim_ows_lem,
}
use opencensus_go.Trace.{Entry, Tracestate, SpanContext}
use opencensus_go.Trace.TracestateEntries.{
  is_valid, is_valid_key, is_valid_value, ok, new, entries_of,
}
use opencensus_go.Trace.TracestateEntries.Plain.{
  IsDense, EndsDense, is_valid_key-IsDense, is_valid_value-EndsDense,
}
use opencensus_go.Trace.TracestateEntries.Laws.{IsValid, new_fresh}
use opencensus_go.Prelude.{
  ℕ, ◌+◌, ◌-◌, ◌≡◌, ◌≢◌, ◌≤◌, refl, ap, ◌∙◌, Bytes, nat_eq, List, [], ◌∷◌, ◌++◌, map, true, false,
  Option, none, some, leb, ltb, length, length-append, All, arith,
}

-- The texts of the entries together, without the commas.
abbrev pub size : List Bytes → ℕ
size [] = 0
size (t ∷ ts) = length t + size ts

length-join :
    (sep : ℕ) (part : Bytes) (parts : List Bytes)
    → length (join sep (part ∷ parts)) ≡ size (part ∷ parts) + length parts
unfolding join
length-join sep part [] = omega arith
length-join sep part (next ∷ parts) =
    omega (arith, length-append part (sep ∷ join sep (next ∷ parts)), length-join sep next parts)

value-IsTrimmed : (value : Bytes) → EndsDense value → IsTrimmed value
value-IsTrimmed [] h = h
value-IsTrimmed (c ∷ []) h = ground (arith, h)
value-IsTrimmed (c ∷ (d ∷ cs)) h = (h.0.2, value-IsTrimmed (d ∷ cs) h.1)

value_no : (value : Bytes) → EndsDense value → Without 0x2c value × Without 0x3d value
value_no [] h = absurd h
value_no (c ∷ []) h = ((h.0.0, tt), (h.0.1, tt))
value_no (c ∷ (d ∷ cs)) h =
    let (comma, equals) = value_no (d ∷ cs) h.1 in ((h.0.0, comma), (h.0.1, equals))

key_no : (key : Bytes) → All IsDense key → Without 0x3d key
key_no [] h = tt
key_no (c ∷ cs) h = (h.0.0.1, key_no cs h.1)

text_no_comma :
    (key value : Bytes) → All IsDense key → EndsDense value → Without 0x2c (key ++ (0x3d ∷ value))
text_no_comma [] value k v = (ground arith, (value_no value v).0)
text_no_comma (c ∷ cs) value k v = (k.0.0.0, text_no_comma cs value k.1 v)

-- A byte in front of the equals sign.
joined-IsTrimmed :
    (cs value : Bytes) → All IsDense cs → EndsDense value → IsTrimmed (cs ++ (0x3d ∷ value))
joined-IsTrimmed [] [] k v = absurd v
joined-IsTrimmed [] (d ∷ value) k v = (ground arith, value-IsTrimmed (d ∷ value) v)
joined-IsTrimmed (c ∷ []) value k v = (k.0.0.2, joined-IsTrimmed [] value tt v)
joined-IsTrimmed (c ∷ (d ∷ cs)) value k v = (k.0.0.2, joined-IsTrimmed (d ∷ cs) value k.1 v)

trim-entry_text :
    (key value : Bytes)
    → key ≢ []
    → All IsDense key
    → EndsDense value
    → trim_ows (key ++ (0x3d ∷ value)) ≡ some (key ++ (0x3d ∷ value))
trim-entry_text [] value n k v = absurd (n refl)
trim-entry_text (c ∷ cs) value n k v =
    let no_ows : is_ows c ≡ false = ground (arith, k.0) in
    trim_ows_lem c (cs ++ (0x3d ∷ value)) no_ows (joined-IsTrimmed (c ∷ cs) value k v)

entry_bytes :
    (e : Entry) → is_valid e ≡ true → (is_valid_key e.key ≡ true) × (is_valid_value e.value ≡ true)
unfolding is_valid
entry_bytes e h = (ground arith, ground arith)

texts_no_comma :
    (es : List Entry) → All (λ e. is_valid e ≡ true) es → All (Without 0x2c) (map entry_text es)
texts_no_comma [] h = tt
texts_no_comma (e ∷ es) h =
    let (k, v) = entry_bytes e h.0 in
    (
      text_no_comma e.key e.value (is_valid_key-IsDense e.key k).1
          (is_valid_value-EndsDense e.value v),
      texts_no_comma es h.1,
    )

read_pairs-entry_text :
    (n : ℕ) (es : List Entry)
    → All (λ e. is_valid e ≡ true) es
    → n + size (map entry_text es) ≤ 512
    → read_pairs n (map entry_text es) ≡ some es
unfolding read_pairs
read_pairs-entry_text n [] h room = refl
read_pairs-entry_text n (e ∷ es) h room =
    let (k, v) = entry_bytes e h.0 in
    let (filled, dense) = is_valid_key-IsDense e.key k in
    let ends = is_valid_value-EndsDense e.value v in
    let whole = trim-entry_text e.key e.value filled dense ends in
    let fits : ltb 512 (n + length (entry_text e)) ≡ false = ground arith in
    let parts : split 0x3d (entry_text e) ≡ e.key ∷ (e.value ∷ []) =
      split_first 0x3d e.key e.value (key_no e.key dense)
      ∙ ap (λ (ps : List Bytes). e.key ∷ ps) (split_none 0x3d e.value (value_no e.value ends).1) in
    let rest = read_pairs-entry_text (n + length (entry_text e)) es h.1 (omega arith) in
    rw (read_pairs, whole, fits, parts, rest) refl

from_header :
    (text : Bytes) (pairs : List Bytes) (entries : List Entry) (ts : Option Tracestate)
    → text ≢ []
    → split 0x2c text ≡ pairs
    → read_pairs (length pairs - 1) pairs ≡ some entries
    → new none entries ≡ ok ts
    → tracestate_from_header text ≡ ts
unfolding tracestate_from_header
from_header [] pairs entries ts n cut read made = absurd (n refl)
from_header (c ∷ cs) pairs entries ts n cut read made =
    rw (tracestate_from_header, cut, read, made) refl

-- The header of a tracestate with entries that is well formed and whose header has at most 512
-- bytes reads back as the tracestate.
pub tracestate_from_header-to_header :
    (sc : SpanContext) (e : Entry) (es : List Entry)
    → sc.tracestate ≡ some (record { entries = e ∷ es })
    → IsValid (e ∷ es)
    → length (join 0x2c (map entry_text (e ∷ es))) ≤ 512
    → tracestate_from_header (tracestate_to_header sc) ≡ sc.tracestate
unfolding tracestate_to_header entries_of tracestate_from_header
tracestate_from_header-to_header sc e es h v room =
    let texts = map entry_text es in
    let fits : leb (length (join 0x2c (entry_text e ∷ texts))) 512 ≡ true = ground arith in
    let parts = split-join 0x2c (entry_text e) texts (texts_no_comma (e ∷ es) v.valid) in
    let long = length-join 0x2c (entry_text e) texts in
    let read = read_pairs-entry_text (length texts) (e ∷ es) v.valid (omega (arith, long, room)) in
    let made = new_fresh e es v in
    let filled : join 0x2c (entry_text e ∷ texts) ≢ [] = λ z.
      let none_long = ap (λ (bs : Bytes). length bs) z in
      omega (arith, long, none_long, length-append e.key (0x3d ∷ e.value)) in
    let commas : length (entry_text e ∷ texts) - 1 ≡ length texts = omega arith in
    rw (h, fits)
      (from_header (join 0x2c (entry_text e ∷ texts)) (entry_text e ∷ texts) (e ∷ es) _ filled parts
        (rw commas read) made)
