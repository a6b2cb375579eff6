-- ===== src/Tag/Codec.antt =====
-- tag/map_codec.go: the binary wire format of a tag map.
-- `encoderGRPC` is its buffer with two positions; a pointer method returns the new record.
pub mod Writes
pub mod Reads
pub mod RoundTrip
pub mod Total
pub mod Hostile
mod Examples
use opencensus_go.Buffer.{copy, grow}
use opencensus_go.Tag.{
  Result, ok, err, panic, stuck, guard, ◌>>=◌, ◌>>◌, invalid_value, unsupported_version,
  invalid_key_type, unexpected_end, malformed_encoding, Key, Metadatas, TagContent, Map, propagates,
  ttl_unlimited_propagation,
}
use opencensus_go.Tag.Mutators.{create_metadatas, with_ttl, upsert}
use opencensus_go.Tag.Validate.{new_key, check_value}
use opencensus_go.Tag.Varint.{put_uvarint, uvarint, max_varint_len64}
use opencensus_go.Prelude.{
  ℕ, zero, suc, ◌+◌, ◌-◌, ◌/◌, ◌%◌, ◌^◌, List, [], ◌∷◌, Option, none, some, Bytes, Bool, ltb, leb,
  ◌==◌, nat_eq, if◌then◌else◌, length, get_elem?, set, take, drop, replicate,
}

abbrev pub tags_version_id : ℕ
tags_version_id = 0

abbrev pub key_type_string : ℕ
key_type_string = 0

abbrev pub key_type_int64 : ℕ
key_type_int64 = 1

abbrev pub key_type_true : ℕ
key_type_true = 2

abbrev pub key_type_false : ℕ
key_type_false = 3

pub record EncoderGrpc : Type 0 where
  pub buf : Bytes
  pub write_idx : ℕ
  pub read_idx : ℕ

grow_if_required : EncoderGrpc → ℕ → EncoderGrpc
unfolding grow
grow_if_required eg expected = record eg { buf = grow eg.buf eg.write_idx expected }

pub write_byte : EncoderGrpc → ℕ → EncoderGrpc
unfolding grow_if_required
write_byte eg v =
    let grown = grow_if_required eg 1 in
    record grown { buf = set grown.buf grown.write_idx v; write_idx = grown.write_idx + 1 }

-- The two methods for strings and for byte slices have one body. `PutUvarint` writes from the
-- write position on: there is room for its ten bytes.
pub write_bytes_with_varint_len : EncoderGrpc → Bytes → EncoderGrpc
unfolding grow_if_required copy put_uvarint
write_bytes_with_varint_len eg s =
    let size = put_uvarint max_varint_len64 (length s) in
    let grown = grow_if_required eg (max_varint_len64 + length s) in
    let buf = copy grown.buf grown.write_idx size in
    let write_idx = grown.write_idx + length size in
    record grown { buf = copy buf write_idx s; write_idx = write_idx + length s }

pub write_tag_string : EncoderGrpc → Bytes → Bytes → EncoderGrpc
unfolding write_byte write_bytes_with_varint_len
write_tag_string eg k v =
    write_bytes_with_varint_len (write_bytes_with_varint_len (write_byte eg key_type_string) k) v

pub bytes : EncoderGrpc → Bytes
bytes eg = take eg.write_idx eg.buf

-- The loop over the map, in the order of the list.
pub encode_entries : EncoderGrpc → Map → EncoderGrpc
unfolding write_tag_string
encode_entries eg [] = eg
encode_entries eg ((k, v) ∷ m) =
    encode_entries (if propagates v then write_tag_string eg k v.value else eg) m

-- A nil map encodes to nil, here `none`.
unfoldable pub encode : Option Map → Option Bytes
unfolding encode_entries write_byte bytes
encode none = none
encode (some m) =
    let eg : EncoderGrpc = record { buf = replicate (length m) 0; write_idx = 0; read_idx = 0 } in
    some (bytes (encode_entries (write_byte eg tags_version_id) m))

pub read_ended : EncoderGrpc → Bool
read_ended eg = leb (length eg.buf) eg.read_idx

pub read_byte : EncoderGrpc → Result (ℕ × EncoderGrpc)
read_byte eg = elim (get_elem? eg.buf eg.read_idx) [
  | none ↦ panic
  | some b ↦ ok (b, record eg { read_idx = eg.read_idx + 1 })
]

-- `int(length)` of a uint64 and the sum wrap to 64 bits: `value_end` is the bit pattern of the int
-- in Go, which is negative from 2 ^ 63 on. A negative end passes the test against the length, and
-- slicing from `value_start` to it, as to any end before `value_start`, panics.
pub read_bytes_with_varint_len : EncoderGrpc → Result (Bytes × EncoderGrpc)
unfolding read_ended uvarint
read_bytes_with_varint_len eg =
    if read_ended eg then err unexpected_end else elim (uvarint (drop eg.read_idx eg.buf)) [
      | none ↦ err unexpected_end
      | some (size, n) ↦
          let value_start = n + eg.read_idx in
          let value_end = (value_start + size) % 2 ^ 64 in
          if leb (2 ^ 63) value_end
          then panic
          else if ltb (length eg.buf) value_end
          then err malformed_encoding
          else if ltb value_end value_start
          then panic
          else ok (
            take (value_end - value_start) (drop value_start eg.buf),
            record eg { read_idx = value_end },
          )
    ]

-- One round of the loop of `DecodeEach`, up to the call of the handler.
pub decode_tag : EncoderGrpc → Result (Key × Bytes × EncoderGrpc)
unfolding read_byte read_bytes_with_varint_len
decode_tag eg = do
  (typ, eg₁) ← read_byte eg
  guard (typ == key_type_string) invalid_key_type
  (k, eg₂) ← read_bytes_with_varint_len eg₁
  (v, eg₃) ← read_bytes_with_varint_len eg₂
  key ← new_key k
  guard (check_value v) invalid_value
  ok (key, v, eg₃)

-- The metadata that every decoded tag gets.
unfoldable pub decoded_metadatas : Metadatas
unfolding create_metadatas
decoded_metadatas = create_metadatas (with_ttl ttl_unlimited_propagation ∷ [])

-- The handler `fn` works on a state of its own, which is returned with the outcome: after an error
-- it has seen the tags before it.
module _ {ℓ} {S : Type ℓ} (fn : Key → Bytes → Metadatas → S → S) where
  pub decode_loop : ℕ → EncoderGrpc → S → S × Result (Unit {0})
  unfolding decode_tag read_ended
  decode_loop zero eg s = (s, stuck)
  decode_loop (suc fuel) eg s = if read_ended eg then (s, ok tt) else elim (decode_tag eg) [
    | ok (k, v, eg') ↦ decode_loop fuel eg' (fn k v decoded_metadatas s)
    | err e ↦ (s, err e)
    | panic ↦ (s, panic)
    | stuck ↦ (s, stuck)
  ]

  decode_version : Result (ℕ × EncoderGrpc) → ℕ → S → S × Result (Unit {0})
  unfolding decode_loop
  decode_version (ok (version, eg)) fuel s =
      if ltb tags_version_id version then (s, err unsupported_version) else decode_loop fuel eg s
  decode_version (err e) fuel s = (s, err e)
  decode_version panic fuel s = (s, panic)
  decode_version stuck fuel s = (s, stuck)

  -- Each round reads a byte at least, so the length of the input is enough fuel.
  pub decode_each : Bytes → S → S × Result (Unit {0})
  unfolding decode_version read_byte
  decode_each bytes s =
      let eg : EncoderGrpc = record { buf = bytes; write_idx = 0; read_idx = 0 } in
      if length bytes == 0 then (s, ok tt) else decode_version (read_byte eg) (length bytes) s

-- The handler is the method `upsert` of the new map.
abbrev pub upsert_handler : Key → Bytes → Metadatas → Map → Map
upsert_handler k v md m = upsert m k v md

unfoldable pub decode : Bytes → Result Map
unfolding decode_each upsert
decode bytes = let (m, outcome) = decode_each upsert_handler bytes [] in do outcome; ok m
