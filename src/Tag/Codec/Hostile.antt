-- ===== src/Tag/Codec/Hostile.antt =====
-- An input on which `Decode` panics instead of returning an error.
use mathlib.Core.Path.{subst}
use opencensus_go.Tag.{Result, ok, panic, Map, ◌>>◌}
use opencensus_go.Tag.Varint.{put_uvarint}
use opencensus_go.Tag.Codec.{
  EncoderGrpc, decode_tag, decode_loop, decode_each, upsert_handler, decode,
}
use opencensus_go.Tag.Codec.Reads.{at_end_of, read_huge}
use opencensus_go.Tag.Codec.RoundTrip.{read_ended-false}
use opencensus_go.Prelude.{
  ℕ, suc, ◌+◌, ◌^◌, ◌≤◌, ◌<◌, ◌≡◌, refl, [], ◌∷◌, ◌++◌, arith, Bytes, length, ◌==◌, nat_eq, false,
  sym,
}

tag_panics :
    (eg : EncoderGrpc) (rest : Bytes) (size : ℕ)
    → length (put_uvarint 10 size ++ rest) + 2 < 2 ^ 63
    → 2 ^ 63 ≤ size
    → size < 2 ^ 64
    → decode_tag (at_end_of (0 ∷ []) (0 ∷ (put_uvarint 10 size ++ rest)) eg) ≡ panic
unfolding decode_tag
tag_panics eg rest size h lo hi =
    rw (read_huge eg (0 ∷ 0 ∷ []) rest size (omega arith) lo hi, decode_tag) refl

each_panics :
    (rest : Bytes) (size : ℕ)
    → length (put_uvarint 10 size ++ rest) + 2 < 2 ^ 63
    → 2 ^ 63 ≤ size
    → size < 2 ^ 64
    → decode_each upsert_handler (0 ∷ 0 ∷ (put_uvarint 10 size ++ rest)) [] ≡ ([], panic)
unfolding decode_each
each_panics rest size h lo hi =
    let tail = put_uvarint 10 size ++ rest in
    let eg : EncoderGrpc = record { buf = []; write_idx = 0; read_idx = 0 } in
    let nonempty : (suc (suc (length tail)) == 0) ≡ false = ground arith in
    rw nonempty
      (rw (read_ended-false eg (0 ∷ []) 0 tail, tag_panics eg rest size h lo hi, decode_loop) refl)

-- Where the length of the first key is a uint64 of 2 ^ 63 or more, `Decode` panics: it converts the
-- length to a negative int, which passes the test against the length of the input.
pub decode_huge :
    (rest : Bytes) (size : ℕ)
    → length (put_uvarint 10 size ++ rest) + 2 < 2 ^ 63
    → 2 ^ 63 ≤ size
    → size < 2 ^ 64
    → decode (0 ∷ 0 ∷ (put_uvarint 10 size ++ rest)) ≡ panic
unfolding decode
decode_huge rest size h lo hi =
    subst (λ (r : Map × Result (Unit {0})). (do r.1; ok r.0) ≡ panic)
      (sym (each_panics rest size h lo hi)) refl
