-- ===== src/TagEncoding/Examples.antt =====
-- Runs of the value encoding, and its theorems at concrete values.
use opencensus_go.TagEncoding.{write_value, read_value, bytes, write_all, read_all}
use opencensus_go.TagEncoding.Laws.{
  IsValid, encode_value, bytes-write_value, writer, reader, read_all-write_all, present,
}
use opencensus_go.Prelude.{◌≡◌, refl, List, [], ◌∷◌, ◌++◌, some, none, Bytes, length, map, arith}

abbrev values : List Bytes
values = (104 ∷ 105 ∷ []) ∷ [] ∷ (1 ∷ []) ∷ []

run_values : bytes (write_all (writer 0) values) ≡ 2 ∷ 104 ∷ 105 ∷ 0 ∷ 1 ∷ 1 ∷ []
unfolding bytes write_all write_value
run_values = refl

read_value_past_end : read_value (reader (3 ∷ 1 ∷ [])) ≡ none
unfolding read_value
read_value_past_end = refl

bytes-write_value_example :
    (bytes (write_value (writer 2) (7 ∷ 8 ∷ 9 ∷ []))
      ≡ bytes (writer 2) ++ encode_value (7 ∷ 8 ∷ 9 ∷ []))
    × IsValid (write_value (writer 2) (7 ∷ 8 ∷ 9 ∷ []))
bytes-write_value_example = bytes-write_value (writer 2) (7 ∷ 8 ∷ 9 ∷ []) (omega arith)

read_all-write_all_example :
    let s = bytes (write_all (writer 0) values) in
    read_all 3 (reader s) ≡ some (map present values, record (reader s) { read_index = length s })
read_all-write_all_example = read_all-write_all 0 values (omega arith)
