-- ===== src/Trace/SpanStore/Spans.antt =====
-- The spans of a bucket as a list, and what holds of such lists.
use opencensus_go.Trace.{SpanData}
use opencensus_go.Trace.Bucket.Kept.{Held}
use opencensus_go.Trace.Bucket.Packed.{Packed}
use opencensus_go.Trace.SpanStore.{until_nil, filter_spans}
use opencensus_go.Prelude.{
  ℕ, zero, suc, sym, ◌≡◌, refl, ap, List, [], ◌∷◌, ◌++◌, Option, none, some, All, Bool, false,
  Bool-cases, inl, inr,
}

-- The spans in a bucket's places.
abbrev pub stored : List (Option SpanData) → List SpanData
stored [] = []
stored (none ∷ buffer) = stored buffer
stored (some sd ∷ buffer) = sd ∷ stored buffer

pub stored_none : (buffer : List (Option SpanData)) → Packed 0 buffer → stored buffer ≡ []
stored_none [] h = refl
stored_none (none ∷ buffer) h = stored_none buffer h
stored_none (some sd ∷ buffer) h = absurd h

-- No span stands behind an empty place.
pub until_nil-stored :
    (k : ℕ) (buffer : List (Option SpanData)) → Packed k buffer → until_nil buffer ≡ stored buffer
unfolding until_nil
until_nil-stored k [] h = refl
until_nil-stored zero (none ∷ buffer) h = sym (stored_none buffer h)
until_nil-stored zero (some sd ∷ buffer) h = absurd h
until_nil-stored (suc k) (none ∷ buffer) h = absurd h
until_nil-stored (suc k) (some sd ∷ buffer) h = ap (◌∷◌ sd) (until_nil-stored k buffer h)

module _ (P : SpanData → Type 0) where
  pub until_nil_lem :
      (buffer : List (Option SpanData)) → All (Held P) buffer → All P (until_nil buffer)
  unfolding until_nil
  until_nil_lem [] h = tt
  until_nil_lem (none ∷ buffer) h = tt
  until_nil_lem (some sd ∷ buffer) h = (h.0, until_nil_lem buffer h.1)

  pub stored_lem : (buffer : List (Option SpanData)) → All (Held P) buffer → All P (stored buffer)
  stored_lem [] h = tt
  stored_lem (none ∷ buffer) h = stored_lem buffer h.1
  stored_lem (some sd ∷ buffer) h = (h.0, stored_lem buffer h.1)

pub weaker_buffer :
    {P Q : SpanData → Type 0} (buffer : List (Option SpanData))
    → All (Held P) buffer
    → ((sd : SpanData) → P sd → Q sd)
    → All (Held Q) buffer
weaker_buffer [] h f = tt
weaker_buffer (none ∷ buffer) h f = (tt, weaker_buffer buffer h.1 f)
weaker_buffer (some sd ∷ buffer) h f = (f sd h.0, weaker_buffer buffer h.1 f)

module _ (p : SpanData → Bool) where
  pub filter_spans-append :
      (xs ys : List SpanData) → filter_spans p (xs ++ ys) ≡ filter_spans p xs ++ filter_spans p ys
  unfolding filter_spans
  filter_spans-append [] ys = refl
  filter_spans-append (x ∷ xs) ys = elim (Bool-cases (p x)) [
    | inl e ↦ rw e (ap (◌∷◌ x) (filter_spans-append xs ys))
    | inr e ↦ rw e (filter_spans-append xs ys)
  ]

  pub filter_spans_none :
      (xs : List SpanData) → All (λ sd. p sd ≡ false) xs → filter_spans p xs ≡ []
  unfolding filter_spans
  filter_spans_none [] h = refl
  filter_spans_none (x ∷ xs) h = rw h.0 (filter_spans_none xs h.1)

pub filter_spans_same :
    (p q : SpanData → Bool) (sds : List SpanData)
    → ((sd : SpanData) → p sd ≡ q sd)
    → filter_spans p sds ≡ filter_spans q sds
unfolding filter_spans
filter_spans_same p q [] h = refl
filter_spans_same p q (sd ∷ sds) h = rw (h sd, filter_spans_same p q sds h) refl

pub weaker_spans :
    {P Q : SpanData → Type 0} (sds : List SpanData)
    → All P sds
    → ((sd : SpanData) → P sd → Q sd)
    → All Q sds
weaker_spans [] h f = tt
weaker_spans (sd ∷ sds) h f = (f sd h.0, weaker_spans sds h.1 f)
