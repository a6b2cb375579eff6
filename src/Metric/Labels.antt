-- ===== src/Metric/Labels.antt =====
-- metric/common.go: the label values of an entry as one map key.
pub mod RoundTrip
use opencensus_go.Metric.{LabelValue}
use opencensus_go.TagEncoding.{Values, write_all, read_value, bytes}
use opencensus_go.Prelude.{
  ℕ, zero, suc, Bytes, List, [], ◌∷◌, map, Bool, true, false, Option, none, some, ◌==◌, nat_eq,
  if◌then◌else◌,
}

-- A byte that says whether there is a value, and the value.
abbrev pub label_bytes : LabelValue → Bytes
label_bytes v = if v.present then 1 ∷ v.value else 0 ∷ []

unfoldable pub encode_label_vals : List LabelValue → Bytes
unfolding write_all bytes
encode_label_vals label_vals = bytes (
    write_all (record { buffer = []; write_index = 0; read_index = 0 })
      (map label_bytes label_vals))

abbrev pub missing : LabelValue
missing = record { value = []; present = false }

-- What the code makes of the bytes of one value: `v[0]` panics on a nil slice.
unfoldable pub label_of : Option Bytes → Option LabelValue
label_of none = none
label_of (some []) = none
label_of (some (b ∷ bs)) =
    if b == 0 then some missing else some (record { value = bs; present = true })

-- The loop over the keys, with the number of keys that are left; `none` is a panic.
unfoldable pub decode_from : ℕ → Values → Option (List LabelValue)
unfolding read_value label_of
decode_from zero vb = some []
decode_from (suc n) vb = elim (read_value vb) [
  | none ↦ none
  | some (v, vb') ↦ elim (label_of v) [
    | none ↦ none
    | some val ↦ elim (decode_from n vb') [ none ↦ none | some vals ↦ some (val ∷ vals) ]
  ]
]

unfoldable pub decode_label_vals : ℕ → Bytes → Option (List LabelValue)
unfolding decode_from
decode_label_vals keys s = decode_from keys (record { buffer = s; write_index = 0; read_index = 0 })
