-- ===== src/Sanitize.antt =====
-- internal/sanitize.go: the names of labels. `strings.Map` and the classes of runes of package
-- unicode are arguments. An index out of range panics, which is `none`.
use opencensus_go.Prelude.{
  ℕ, Bytes, [], ◌∷◌, Bool, ◌||◌, Option, none, some, ltb, ◌==◌, nat_eq, length, take, if◌then◌else◌,
}

abbrev label_key_size_limit : ℕ
label_key_size_limit = 100

module _ (is_letter is_digit : ℕ → Bool) (strings_map : (ℕ → ℕ) → Bytes → Bytes) where
  -- '_'
  unfoldable pub sanitize_rune : ℕ → ℕ
  sanitize_rune r = if is_letter r || is_digit r then r else 0x5f

  -- "key"
  abbrev prefixed : Bytes → Bytes
  prefixed s = 0x6b ∷ 0x65 ∷ 0x79 ∷ s

  -- The part behind the call of `strings.Map`; a text that starts with "key_" gets no other prefix.
  unfoldable pub prefix : Bytes → Option Bytes
  prefix [] = none
  prefix (c ∷ s) = some (
      if is_digit c
      then prefixed (0x5f ∷ c ∷ s)
      else (if c == 0x5f then prefixed (c ∷ s) else c ∷ s))

  unfoldable pub sanitize : Bytes → Option Bytes
  unfolding prefix sanitize_rune
  sanitize [] = some []
  sanitize (c ∷ s) =
      let s' =
        if ltb label_key_size_limit (length (c ∷ s))
        then take label_key_size_limit (c ∷ s)
        else c ∷ s in
      prefix (strings_map sanitize_rune s')
