-- ===== src/Trace/TracestateEntries.antt =====
-- trace/tracestate/tracestate.go: the list of key-value pairs of the W3C Tracestate header.
-- The regular expressions are written out as tests on the bytes of a key and of a value.
pub mod Laws
pub mod Plain
mod Examples
use opencensus_go.Trace.{Entry, Tracestate}
use opencensus_go.Prelude.{
  ℕ, zero, suc, ◌+◌, List, [], ◌∷◌, ◌++◌, Bool, true, false, not, ◌&&◌, ◌||◌, Option, none, some,
  ltb, leb, ◌==◌, nat_eq, bytes_eq, Bytes, if◌then◌else◌, length,
}

abbrev pub max_key_value_pairs : ℕ
max_key_value_pairs = 32

-- [a-z]
abbrev is_lower : ℕ → Bool
is_lower c = leb 0x61 c && leb c 0x7a

-- [_0-9a-z\-\*\/]
abbrev is_key_byte : ℕ → Bool
is_key_byte c =
    c == 0x5f || (leb 0x30 c && leb c 0x39) || is_lower c || c == 0x2d || c == 0x2a || c == 0x2f

all_bytes : (ℕ → Bool) → Bytes → Bool
all_bytes p [] = true
all_bytes p (c ∷ cs) = p c && all_bytes p cs

-- [a-z][_0-9a-z\-\*\/]{0,limit}
key_part : ℕ → Bytes → Bool
unfolding all_bytes
key_part limit [] = false
key_part limit (c ∷ cs) = is_lower c && leb (length cs) limit && all_bytes is_key_byte cs

-- The part before the first `@` and the part behind it.
split_at_sign : Bytes → Option (Bytes × Bytes)
split_at_sign [] = none
split_at_sign (c ∷ cs) =
    let rest = split_at_sign cs in
    if c == 0x40
    then some ([], cs)
    else elim rest [ none ↦ none | some parts ↦ some (c ∷ parts.0, parts.1) ]

unfoldable pub is_valid_key : Bytes → Bool
unfolding key_part split_at_sign
is_valid_key key = key_part 255 key || elim (split_at_sign key) [
  | none ↦ false
  | some parts ↦ key_part 240 parts.0 && key_part 13 parts.1
]

-- [\x21-\x2b\x2d-\x3c\x3e-\x7e]
abbrev is_value_byte : ℕ → Bool
is_value_byte c =
    (leb 0x21 c && leb c 0x2b) || (leb 0x2d c && leb c 0x3c) || (leb 0x3e c && leb c 0x7e)

-- The last byte is not a space, the others may be.
value_bytes : Bytes → Bool
value_bytes [] = false
value_bytes (c ∷ []) = is_value_byte c
value_bytes (c ∷ d ∷ cs) = (c == 0x20 || is_value_byte c) && value_bytes (d ∷ cs)

unfoldable pub is_valid_value : Bytes → Bool
unfolding value_bytes
is_valid_value value = leb (length value) 256 && value_bytes value

unfoldable pub is_valid : Entry → Bool
unfolding is_valid_key is_valid_value
is_valid entry = is_valid_key entry.key && is_valid_value entry.value

unfoldable pub entries_of : Option Tracestate → List Entry
entries_of none = []
entries_of (some ts) = ts.entries

-- The first entry of the key goes.
pub remove : Bytes → List Entry → List Entry
remove key [] = []
remove key (entry ∷ entries) =
    let rest = remove key entries in if entry.key == key then entries else entry ∷ rest

pub remove_all : List Entry → List Entry → List Entry
unfolding remove
remove_all [] old = old
remove_all (entry ∷ entries) old = remove_all entries (remove entry.key old)

pub data Error : Type 0 where
  invalid_entry : Entry → Error
  duplicate_key : Bytes → Error
  too_many_pairs : Error

pub data Result : Type 0 where
  ok : Option Tracestate → Result
  err : Error → Result

unfoldable pub add : List Entry → List Entry → Option (List Entry)
unfolding remove_all
add old entries =
    let rest = remove_all entries old in
    if ltb max_key_value_pairs (length rest + length entries) then none else some (entries ++ rest)

is_seen : Bytes → List Bytes → Bool
is_seen key [] = false
is_seen key (seen ∷ keys) = seen == key || is_seen key keys

-- The loop, with the keys that `keyMap` holds.
pub duplicate_from : List Bytes → List Entry → Option Bytes
unfolding is_seen
duplicate_from keys [] = none
duplicate_from keys (entry ∷ entries) =
    if is_seen entry.key keys then some entry.key else duplicate_from (entry.key ∷ keys) entries

unfoldable pub contains_duplicate_key : List Entry → Option Bytes
unfolding duplicate_from
contains_duplicate_key entries = duplicate_from [] entries

-- The first entry that is not valid.
pub are_entries_valid : List Entry → Option Entry
unfolding is_valid
are_entries_valid [] = none
are_entries_valid (entry ∷ entries) =
    if is_valid entry then are_entries_valid entries else some entry

add_to : List Entry → List Entry → Result
unfolding add
add_to old entries = elim (add old entries) [
  | none ↦ err too_many_pairs
  | some all ↦ ok (some (record { entries = all }))
]

check_entries : List Entry → List Entry → Result
unfolding are_entries_valid contains_duplicate_key add_to
check_entries old entries = elim (are_entries_valid entries) [
  | some entry ↦ err (invalid_entry entry)
  | none ↦ elim (contains_duplicate_key entries) [
    | some key ↦ err (duplicate_key key)
    | none ↦ add_to old entries
  ]
]

unfoldable pub new : Option Tracestate → List Entry → Result
unfolding check_entries entries_of
new none [] = ok none
new none (entry ∷ entries) = check_entries [] (entry ∷ entries)
new (some parent) entries = check_entries parent.entries entries
