-- ===== src/Metric/Entries/Cumulative.antt =====
-- A cumulative of int64 values goes up by what it is given.
use opencensus_go.Floats.{Floats}
use opencensus_go.Metric.{is_negative, int64_add, int64_point}
use opencensus_go.Metric.Base.{Entry, int64_entry, BaseMetric, read_entry, change}
use opencensus_go.Metric.Entries.{add_int64, inc_int64}
use opencensus_go.Prelude.{
  ℕ, ◌+◌, ◌^◌, ◌≡◌, ◌<◌, refl, ap, ◌∙◌, Bytes, bytes_eq, nat_eq, ◌==◌, ◌||◌, List, [], ◌∷◌, some,
  false, lookup, lookup-insert, beq_refl, Bool-cases, inl, inr, arith, if◌then◌else◌,
}

-- The values of `Inc` that are not negative, added up.
abbrev pub total : List ℕ → ℕ
total [] = 0
total (v ∷ vs) = (if is_negative v then 0 else v) + total vs

module _ {F : Type 0} (floats : Floats F) (key : Bytes) where
  pub inc_all : BaseMetric F → List ℕ → BaseMetric F
  unfolding inc_int64
  inc_all bm [] = bm
  inc_all bm (v ∷ vs) = inc_all (inc_int64 bm key v) vs

  -- One call.
  inc_int64_lem :
      (bm : BaseMetric F) (old v : ℕ)
      → lookup key bm.vals ≡ some (int64_entry old)
      → old + total (v ∷ []) < 2 ^ 63
      → lookup key (inc_int64 bm key v).vals ≡ some (int64_entry (old + total (v ∷ [])))
  unfolding inc_int64 add_int64
  inc_int64_lem bm old v h bound = elim (Bool-cases (is_negative v || v == 0)) [
    | inl e ↦ let nothing : old ≡ old + total (v ∷ []) = ground arith in rw (e, ← nothing) h
    | inr e ↦
        let sum : int64_add old v ≡ old + total (v ∷ []) = ground arith in
        rw
          (
            e,
            add_int64,
            change,
            h,
            lookup-insert key key (int64_entry (int64_add old v)) bm.vals,
            beq_refl key,
            sum,
          )
          refl
  ]

  inc_all_lem :
      (bm : BaseMetric F) (old : ℕ) (vs : List ℕ)
      → lookup key bm.vals ≡ some (int64_entry old)
      → old + total vs < 2 ^ 63
      → lookup key (inc_all bm vs).vals ≡ some (int64_entry (old + total vs))
  unfolding inc_all
  inc_all_lem bm old [] h bound = h ∙ ap (λ (n : ℕ). some (int64_entry n)) (omega arith)
  inc_all_lem bm old (v ∷ vs) h bound =
      let next : ℕ = old + total (v ∷ []) in
      let same : next + total vs ≡ old + total (v ∷ vs) = omega arith in
      inc_all_lem (inc_int64 bm key v) next vs (inc_int64_lem bm old v h (omega arith))
        (omega arith)
      ∙ ap (λ (n : ℕ). some (int64_entry n)) same

  -- An entry of a cumulative that stands at `old` reads, after any calls of `Inc`, as `old` and all
  -- the values that are not negative, added up, so it never goes down; the sum must be below
  -- 2 ^ 63, beyond which int64 addition wraps.
  pub read-inc_all :
      (bm : BaseMetric F) (old t : ℕ) (vs : List ℕ)
      → lookup key bm.vals ≡ some (int64_entry old)
      → old + total vs < 2 ^ 63
      → (e : Entry F) × (lookup key (inc_all bm vs).vals ≡ some e)
        × (read_entry floats e t ≡ record { time = t; value = int64_point (old + total vs) })
  unfolding read_entry
  read-inc_all bm old t vs h bound =
      let positive : is_negative (old + total vs) ≡ false = ground arith in
      (int64_entry (old + total vs), inc_all_lem bm old vs h bound, rw positive refl)
