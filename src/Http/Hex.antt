-- ===== src/Http/Hex.antt =====
-- The package encoding/hex, as the propagation uses it.
pub mod RoundTrip
use opencensus_go.Prelude.{
  ℕ, ◌+◌, ◌-◌, ◌*◌, ◌/◌, ◌%◌, Bytes, Bool, ◌&&◌, List, [], ◌∷◌, Option, none, some, ltb, leb,
  if◌then◌else◌,
}

-- 0-9 and a-f.
abbrev pub hex_digit : ℕ → ℕ
hex_digit n = if ltb n 10 then 0x30 + n else 0x57 + n

-- 0-9, a-f and A-F.
abbrev pub from_hex_digit : ℕ → Option ℕ
from_hex_digit c =
    if leb 0x30 c && leb c 0x39
    then some (c - 0x30)
    else (if leb 0x61 c && leb c 0x66
        then some (c - 0x57)
        else (if leb 0x41 c && leb c 0x46 then some (c - 0x37) else none))

unfoldable pub encode : Bytes → Bytes
encode [] = []
encode (b ∷ bs) = hex_digit (b / 16) ∷ hex_digit (b % 16) ∷ encode bs

-- `none` is an error: a byte that is no digit, or an odd number of bytes.
unfoldable pub decode : Bytes → Option Bytes
decode [] = some []
decode (c ∷ []) = none
decode (c ∷ d ∷ cs) = elim (from_hex_digit c) [
  | none ↦ none
  | some hi ↦ elim (from_hex_digit d) [
    | none ↦ none
    | some lo ↦ elim (decode cs) [ none ↦ none | some bs ↦ some ((hi * 16 + lo) ∷ bs) ]
  ]
]
