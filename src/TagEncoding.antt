-- ===== src/TagEncoding.antt =====
-- internal/tagencoding/tagencoding.go: tag values as one byte string, each behind its length.
-- A `Values` is its buffer with two positions; a pointer method returns the new record.
pub mod Laws
mod Examples
use opencensus_go.Buffer.{copy, grow}
use opencensus_go.Prelude.{
  ℕ, zero, suc, ◌+◌, ◌%◌, ◌≡◌, List, [], ◌∷◌, Option, none, some, Bytes, ltb, leb, ◌==◌, nat_eq,
  if◌then◌else◌, length, get_elem?, set, take, drop,
}

pub record Values : Type 0 where
  pub buffer : Bytes
  pub write_index : ℕ
  pub read_index : ℕ

grow_if_required : Values → ℕ → Values
unfolding grow
grow_if_required vb expected = record vb { buffer = grow vb.buffer vb.write_index expected }

-- `len(v) & 0xff` is the length modulo 256.
pub write_value : Values → Bytes → Values
unfolding grow_if_required copy
write_value vb v =
    let size = length v % 256 in
    let grown = grow_if_required vb (1 + size) in
    let buffer = set grown.buffer grown.write_index size in
    let write_index = grown.write_index + 1 in
    if size == 0
    then record grown { buffer = buffer; write_index = write_index }
    else record grown {
      buffer = copy buffer write_index (take size v);
      write_index = write_index + size;
    }

-- `none` is a panic: an index or a slice bound past the end. A value is `none` where Go has nil.
-- The buffer's capacity is taken to be its length.
unfoldable pub read_value : Values → Option (Option Bytes × Values)
read_value vb = elim (get_elem? vb.buffer vb.read_index) [
  | none ↦ none
  | some size ↦
      let start = vb.read_index + 1 in
      if size == 0
      then some (none, record vb { read_index = start })
      else if leb (start + size) (length vb.buffer)
      then some (some (take size (drop start vb.buffer)), record vb { read_index = start + size })
      else none
]

unfoldable pub bytes : Values → Bytes
bytes vb = take vb.write_index vb.buffer

-- The loops of the package's clients: one `WriteValue` or `ReadValue` for each value.
unfoldable pub write_all : Values → List Bytes → Values
write_all vb [] = vb
write_all vb (v ∷ vs) = write_all (write_value vb v) vs

unfoldable pub read_all : ℕ → Values → Option (List (Option Bytes) × Values)
read_all zero vb = some ([], vb)
read_all (suc n) vb = elim (read_value vb) [
  | none ↦ none
  | some (v, vb') ↦ elim (read_all n vb') [ none ↦ none | some (vs, end) ↦ some (v ∷ vs, end) ]
]
