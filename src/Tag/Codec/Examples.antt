-- ===== src/Tag/Codec/Examples.antt =====
-- Runs of the codec, and its theorems at concrete tags: a=x propagates, b=y does not.
use opencensus_go.Tag.{ok, err, panic, stuck, TagContent, Map, malformed_encoding}
use opencensus_go.Tag.Validate.{check_key_name, check_value}
use opencensus_go.Tag.Varint.{put_uvarint}
use opencensus_go.Tag.Mutators.Laws.{IsValid}
use opencensus_go.Tag.Codec.{encode, decode}
use opencensus_go.Tag.Codec.Writes.{encode_tags, encode-encode_tags}
use opencensus_go.Tag.Codec.RoundTrip.{decode-encode}
use opencensus_go.Tag.Codec.Total.{decode_total}
use opencensus_go.Tag.Codec.Hostile.{decode_huge}
use opencensus_go.Prelude.{
  ◌^◌, ◌≡◌, ◌≢◌, refl, [], ◌∷◌, ◌++◌, some, Bytes, pos, negsuc, arith, bytes_eq,
}

abbrev with_x : TagContent
with_x = record { value = 120 ∷ []; m = record { ttl = record { ttl = negsuc 0 } } }

abbrev with_y : TagContent
with_y = record { value = 121 ∷ []; m = record { ttl = record { ttl = pos 0 } } }

abbrev tags : Map
tags = (97 ∷ [], with_x) ∷ (98 ∷ [], with_y) ∷ []

abbrev wire : Bytes
wire = 0 ∷ 0 ∷ 1 ∷ 97 ∷ 1 ∷ 120 ∷ []

tags-IsValid : IsValid tags
unfolding check_key_name check_value
tags-IsValid = record {
  is_map = (refl, (refl, tt));
  entries = (
    record { name_valid = refl; value_valid = refl },
    (record { name_valid = refl; value_valid = refl }, tt),
  );
}

wire_lem : encode (some tags) ≡ some wire
unfolding encode
wire_lem = refl

decode_short : decode (0 ∷ 0 ∷ 5 ∷ []) ≡ err malformed_encoding
unfolding decode
decode_short = refl

decode-encode_example : decode wire ≡ ok ((97 ∷ [], with_x) ∷ [])
decode-encode_example = decode-encode tags wire tags-IsValid wire_lem (omega arith)

encode-encode_tags_example : encode (some tags) ≡ some (0 ∷ encode_tags tags)
encode-encode_tags_example = encode-encode_tags tags

decode_total_example : (decode wire ≢ stuck) × ((m : Map) → decode wire ≡ ok m → IsValid m)
decode_total_example = decode_total wire

decode_huge_example : decode (0 ∷ 0 ∷ (put_uvarint 10 (2 ^ 63) ++ [])) ≡ panic
unfolding put_uvarint
decode_huge_example = decode_huge [] (2 ^ 63) (omega arith) (omega arith) (omega arith)
