-- ===== src/Trace/Ids/Filled.antt =====
-- The loop for a span identifier ends, and its result is not zero.
use opencensus_go.Trace.Ids.{Generator, init, little_endian, next_id, new_span_id, new_span_ids}
use opencensus_go.Prelude.{
  ℕ, zero, suc, ◌+◌, ◌*◌, ◌/◌, ◌%◌, ◌^◌, ◌≡◌, ◌≢◌, ◌<◌, refl, ap, Bytes, nat_eq, ◌==◌, List, [],
  ◌∷◌, All, some, false, length, replicate, Bool-cases, inl, inr, arith,
}

-- The numbers of so many bytes.
abbrev limit : ℕ → ℕ
limit zero = 1
limit (suc k) = 256 * limit k

little_endian_zero : (k n : ℕ) → n < limit k → little_endian k n ≡ replicate k 0 → n ≡ 0
unfolding little_endian
little_endian_zero zero n low h = omega (arith, low)
little_endian_zero (suc k) n low h =
    let digit : n % 256 ≡ 0 = cc in
    let others : little_endian k (n / 256) ≡ replicate k 0 = cc in
    let small : n / 256 < limit k = omega (arith, low) in
    let rest = little_endian_zero k (n / 256) small others in omega (arith, digit, rest)

length-little_endian : (k n : ℕ) → length (little_endian k n) ≡ k
unfolding little_endian
length-little_endian zero n = refl
length-little_endian (suc k) n = ap suc (length-little_endian k (n / 256))

-- With an odd step two rounds are enough, since at most one of them meets zero.
next_id_total :
    (next inc : ℕ)
    → inc % 2 ≡ 1
    → (id : ℕ) × (next_id 2 next inc ≡ some id) × (id ≢ 0) × (id < 2 ^ 64)
unfolding next_id
next_id_total next inc odd = elim (Bool-cases ((next + inc) % 2 ^ 64 == 0)) [
  | inr e ↦ ((next + inc) % 2 ^ 64, rw (next_id, e) refl, ground arith, omega arith)
  | inl e ↦
      let zero_id : (next + inc) % 2 ^ 64 ≡ 0 = ground arith in
      let again : ((next + inc) % 2 ^ 64 + inc) % 2 ^ 64 ≢ 0 = omega (arith, odd, zero_id) in
      let filled : (((next + inc) % 2 ^ 64 + inc) % 2 ^ 64 == 0) ≡ false = ground arith in
      (((next + inc) % 2 ^ 64 + inc) % 2 ^ 64, rw (next_id, e, filled) refl, again, omega arith)
]

-- With an odd step `NewSpanID` ends after at most two rounds, with 8 bytes that are not all zero and
-- the same step.
new_span_id_total :
    (gen : Generator)
    → gen.span_id_inc % 2 ≡ 1
    → (id : Bytes) × (gen' : Generator) × (new_span_id 2 gen ≡ some (id, gen'))
      × (length id ≡ 8)
      × (id ≢ replicate 8 0)
      × (gen'.span_id_inc ≡ gen.span_id_inc)
unfolding new_span_id
new_span_id_total gen odd =
    let (id, run, filled, low) = next_id_total gen.next_span_id gen.span_id_inc odd in
    (
      little_endian 8 id,
      record gen { next_span_id = id },
      rw (run, new_span_id) refl,
      length-little_endian 8 id,
      (λ h. filled (little_endian_zero 8 id (omega (arith, low)) h)),
      refl,
    )

-- An identifier of a span has 8 bytes that are not all zero.
abbrev pub IsFilled : Bytes → Type 0
IsFilled id = (length id ≡ 8) × (id ≢ replicate 8 0)

new_span_ids_odd :
    (calls : ℕ) (gen : Generator)
    → gen.span_id_inc % 2 ≡ 1
    → (ids : List Bytes) × (gen' : Generator) × (new_span_ids 2 calls gen ≡ some (ids, gen'))
      × (length ids ≡ calls)
      × All IsFilled ids
unfolding new_span_ids
new_span_ids_odd zero gen odd = ([], gen, refl, refl, tt)
new_span_ids_odd (suc calls) gen odd =
    let (id, gen', run, size, filled, step) = new_span_id_total gen odd in
    let (ids, end, runs, many, all) = new_span_ids_odd calls gen' (rw step odd) in
    (id ∷ ids, end, rw (run, runs, new_span_ids) refl, ap suc many, ((size, filled), all))

-- Whatever numbers `init` reads for the generator, any number of calls of `NewSpanID` ends after at
-- most two rounds each, and gives identifiers of 8 bytes that are not all zero.
pub new_span_ids-init :
    (calls next inc : ℕ) (add : ℕ × ℕ)
    → (ids : List Bytes) × (gen : Generator) × (new_span_ids 2 calls (init next inc add)
        ≡ some (ids, gen))
      × (length ids ≡ calls)
      × All IsFilled ids
unfolding init
new_span_ids-init calls next inc add = new_span_ids_odd calls (init next inc add) (omega arith)
