-- ===== src/Tag/Validate.antt =====
-- tag/validate.go and tag/key.go: which names and values are accepted.
-- The Go loop ranges over runes. A byte of 0x80 or more belongs to a rune of at least 0x80 or to
-- U+FFFD, both above the accepted range, so a test of each byte gives the same answer.
use opencensus_go.Tag.{Result, ok, err, invalid_key_name, Key}
use opencensus_go.Prelude.{
  ℕ, ◌≤◌, ◌≡◌, refl, [], ◌∷◌, Bool, true, false, ◌||◌, not, arith, Bytes, ltb, ◌==◌, nat_eq,
  if◌then◌else◌, length, All, ◌↔◌,
}

abbrev pub max_key_length : ℕ
max_key_length = 255

abbrev pub valid_key_value_min : ℕ
valid_key_value_min = 32

abbrev pub valid_key_value_max : ℕ
valid_key_value_max = 126

unfoldable pub is_ascii : Bytes → Bool
is_ascii [] = true
is_ascii (c ∷ s) =
    if ltb c valid_key_value_min || ltb valid_key_value_max c then false else is_ascii s

unfoldable pub check_key_name : Bytes → Bool
unfolding is_ascii
check_key_name name =
    if length name == 0
    then false
    else if ltb max_key_length (length name)
    then false
    else is_ascii name

unfoldable pub check_value : Bytes → Bool
unfolding is_ascii
check_value v = if ltb max_key_length (length v) then false else is_ascii v

unfoldable pub new_key : Bytes → Result Key
unfolding check_key_name
new_key name = if not (check_key_name name) then err invalid_key_name else ok name

abbrev IsPrintable : ℕ → Type 0
IsPrintable c = (32 ≤ c) × (c ≤ 126)

is_ascii_iff : (s : Bytes) → (is_ascii s ≡ true) ↔ All IsPrintable s
unfolding is_ascii
is_ascii_iff [] = (λ _. tt, λ _. refl)
is_ascii_iff (c ∷ s) = ground (arith, is_ascii_iff s)

-- A name is accepted exactly when it has 1 to 255 bytes, each a printable ASCII character.
pub check_key_name_iff :
    (name : Bytes)
    → (check_key_name name ≡ true)
      ↔ ((1 ≤ length name) × (length name ≤ 255) × All IsPrintable name)
unfolding check_key_name
check_key_name_iff name = ground (arith, is_ascii_iff name)

pub check_key_name_short : (name : Bytes) → check_key_name name ≡ true → length name ≤ 255
unfolding check_key_name
check_key_name_short name h = ground arith

pub check_value_short : (v : Bytes) → check_value v ≡ true → length v ≤ 255
unfolding check_value
check_value_short v h = ground arith
