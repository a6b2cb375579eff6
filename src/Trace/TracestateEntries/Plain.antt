-- ===== src/Trace/TracestateEntries/Plain.antt =====
-- The bytes that the keys and the values of a tracestate are free of.
use opencensus_go.Trace.TracestateEntries.{
  is_valid_key, is_valid_value, key_part, all_bytes, split_at_sign, value_bytes, is_key_byte,
  is_value_byte, is_lower,
}
use mathlib.Core.Path.{subst}
use opencensus_go.Prelude.{
  ℕ, ◌≡◌, ◌≢◌, sym, Bytes, nat_eq, ◌==◌, [], ◌∷◌, true, false, ◌||◌, some, All, Bool-cases,
  Option-cases, inl, inr, arith,
}

-- No comma, no equals sign, no newline, no tab.
abbrev pub IsPlain : ℕ → Type 0
IsPlain c =
    ((c == 0x2c) ≡ false) × ((c == 0x3d) ≡ false) × ((c == 0x0a) ≡ false) × ((c == 0x09) ≡ false)

-- Plain, and no space.
abbrev pub IsDense : ℕ → Type 0
IsDense c = IsPlain c × ((c == 0x20) ≡ false)

key_byte-IsDense : (c : ℕ) → is_key_byte c ≡ true → IsDense c
key_byte-IsDense c h = ground arith

all_bytes-IsDense : (cs : Bytes) → all_bytes is_key_byte cs ≡ true → All IsDense cs
unfolding all_bytes
all_bytes-IsDense [] h = tt
all_bytes-IsDense (c ∷ cs) h = elim (Bool-cases (is_key_byte c)) [
  | inl e ↦ (key_byte-IsDense c e, all_bytes-IsDense cs (rw e at h))
  | inr e ↦ absurd (let no = rw e at h in cc)
]

key_part-IsDense : (limit : ℕ) (cs : Bytes) → key_part limit cs ≡ true → (cs ≢ []) × All IsDense cs
unfolding key_part
key_part-IsDense limit [] h = absurd (cc)
key_part-IsDense limit (c ∷ cs) h =
    let lower : is_lower c ≡ true = ground arith in
    let others : all_bytes is_key_byte cs ≡ true = ground arith in
    (λ e. cc, (ground arith, all_bytes-IsDense cs others))

split_at_sign-IsDense :
    (key a b : Bytes)
    → split_at_sign key ≡ some (a, b)
    → All IsDense a
    → All IsDense b
    → All IsDense key
unfolding split_at_sign
split_at_sign-IsDense [] a b h p q = tt
split_at_sign-IsDense (c ∷ cs) a b h p q = elim (Bool-cases (c == 0x40)) [
  | inl e ↦ let parts = rw e at h in let same : cs ≡ b = cc in (ground arith, rw same q)
  | inr e ↦ elim (Option-cases (split_at_sign cs)) [
    | inl f ↦ absurd (let no = rw (e, f) at h in cc)
    | inr ((x, y), f) ↦
        let parts = rw (e, f) at h in
        let first : c ∷ x ≡ a = cc in
        let second : y ≡ b = cc in
        let p' : All IsDense (c ∷ x) = subst (λ (z : Bytes). All IsDense z) (sym first) p in
        (p'.0, split_at_sign-IsDense cs x y f p'.1 (rw second q))
  ]
]

nothing_split : (a b : Bytes) → split_at_sign [] ≡ some (a, b) → ⊥
unfolding split_at_sign
nothing_split a b h = cc

pub is_valid_key-IsDense : (key : Bytes) → is_valid_key key ≡ true → (key ≢ []) × All IsDense key
unfolding is_valid_key
is_valid_key-IsDense key h = elim (Bool-cases (key_part 255 key)) [
  | inl e ↦ key_part-IsDense 255 key e
  | inr e ↦ elim (Option-cases (split_at_sign key)) [
    | inl f ↦ absurd (let no = rw (e, f) at h in cc)
    | inr ((a, b), f) ↦
        let both = rw (e, f) at h in
        let left : key_part 240 a ≡ true = ground arith in
        let right : key_part 13 b ≡ true = ground arith in
        (
          λ z. (let no = rw z at f in nothing_split a b no),
          split_at_sign-IsDense key a b f (key_part-IsDense 240 a left).1
              (key_part-IsDense 13 b right).1,
        )
  ]
]

-- The bytes of a value are plain, and the last one is no space.
abbrev pub EndsDense : Bytes → Type 0
EndsDense [] = ⊥
EndsDense (c ∷ []) = IsDense c
EndsDense (c ∷ (d ∷ cs)) = IsPlain c × EndsDense (d ∷ cs)

value_byte-IsDense : (c : ℕ) → is_value_byte c ≡ true → IsDense c
value_byte-IsDense c h = ground arith

value_bytes-EndsDense : (cs : Bytes) → value_bytes cs ≡ true → EndsDense cs
unfolding value_bytes
value_bytes-EndsDense [] h = absurd (cc)
value_bytes-EndsDense (c ∷ []) h = value_byte-IsDense c h
value_bytes-EndsDense (c ∷ (d ∷ cs)) h =
    let first : (c == 0x20 || is_value_byte c) ≡ true = ground arith in
    let others : value_bytes (d ∷ cs) ≡ true = ground arith in
    (ground arith, value_bytes-EndsDense (d ∷ cs) others)

pub is_valid_value-EndsDense : (value : Bytes) → is_valid_value value ≡ true → EndsDense value
unfolding is_valid_value
is_valid_value-EndsDense value h = value_bytes-EndsDense value (ground arith)
