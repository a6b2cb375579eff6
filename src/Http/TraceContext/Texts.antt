-- ===== src/Http/TraceContext/Texts.antt =====
-- Splitting, joining and trimming of texts.
use opencensus_go.Http.TraceContext.{split, join, is_ows, trim_left, trim_right, one_line, trim_ows}
use opencensus_go.Prelude.{
  ℕ, ◌≡◌, refl, ap, ◌∙◌, Bytes, nat_eq, beq_refl, ◌==◌, List, [], ◌∷◌, ◌++◌, true, false, some, All,
}

-- A text without the separator.
abbrev pub Without : ℕ → Bytes → Type 0
Without sep xs = All (λ c. (c == sep) ≡ false) xs

pub split_none : (sep : ℕ) (xs : Bytes) → Without sep xs → split sep xs ≡ xs ∷ []
unfolding split
split_none sep [] h = refl
split_none sep (c ∷ cs) h = rw (split, h.0, split_none sep cs h.1) refl

pub split_first :
    (sep : ℕ) (xs ys : Bytes) → Without sep xs → split sep (xs ++ (sep ∷ ys)) ≡ xs ∷ split sep ys
unfolding split
split_first sep [] ys h = rw (split, beq_refl sep) refl
split_first sep (c ∷ cs) ys h = rw (split, h.0, split_first sep cs ys h.1) refl

-- Parts without the separator come back when they are joined and split.
pub split-join :
    (sep : ℕ) (part : Bytes) (parts : List Bytes)
    → All (Without sep) (part ∷ parts)
    → split sep (join sep (part ∷ parts)) ≡ part ∷ parts
unfolding join
split-join sep part [] h = split_none sep part h.0
split-join sep part (next ∷ parts) h =
    split_first sep part (join sep (next ∷ parts)) h.0
    ∙ ap (λ (ps : List Bytes). part ∷ ps) (split-join sep next parts h.1)

-- The last byte is no white space, and no byte is a newline.
abbrev pub IsTrimmed : Bytes → Type 0
IsTrimmed [] = ⊥
IsTrimmed (c ∷ []) = is_ows c ≡ false
IsTrimmed (c ∷ (d ∷ cs)) = ((c == 0x0a) ≡ false) × IsTrimmed (d ∷ cs)

trim_right_lem : (xs : Bytes) → IsTrimmed xs → trim_right xs ≡ xs
unfolding trim_right
trim_right_lem [] h = absurd h
trim_right_lem (c ∷ []) h = rw h refl
trim_right_lem (c ∷ (d ∷ cs)) h = rw (trim_right_lem (d ∷ cs) h.1) refl

one_line_lem : (xs : Bytes) → IsTrimmed xs → one_line xs ≡ true
unfolding one_line
one_line_lem [] h = absurd h
one_line_lem (c ∷ []) h = refl
one_line_lem (c ∷ (d ∷ cs)) h = rw (one_line, h.0) (one_line_lem (d ∷ cs) h.1)

pub trim_ows_lem :
    (c : ℕ) (cs : Bytes) → is_ows c ≡ false → IsTrimmed (c ∷ cs) → trim_ows (c ∷ cs) ≡ some (c ∷ cs)
unfolding trim_ows trim_left
trim_ows_lem c cs first h =
    rw (trim_ows, first, trim_right_lem (c ∷ cs) h, one_line_lem (c ∷ cs) h) refl
