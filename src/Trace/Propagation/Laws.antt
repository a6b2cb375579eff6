-- ===== src/Trace/Propagation/Laws.antt =====
-- The binary format read back.
use opencensus_go.Trace.{SpanContext}
use opencensus_go.Trace.Propagation.{
  is_zero, binary, has_field, read_options, read_optional, from_binary,
}
use opencensus_go.Prelude.{
  ℕ, suc, ◌%◌, ◌≡◌, ◌≤◌, ◌↔◌, refl, Bytes, nat_eq, ◌==◌, [], ◌∷◌, ◌++◌, true, false, ◌&&◌, none,
  some, leb, length, length-append, take, drop, take-length-append, drop-length-append, arith,
  Bool-cases, inl, inr,
}

-- Splitting a text of a known length off.
cut : (n : ℕ) (xs ys : Bytes) → length xs ≡ n → (take n (xs ++ ys) ≡ xs) × (drop n (xs ++ ys) ≡ ys)
cut n xs ys h = rw (← h) (take-length-append xs ys, drop-length-append xs ys)

-- Every span context but the zero one has a binary form of 29 bytes. It reads back as the same
-- trace and span with the lowest byte of the options; the tracestate is not in it.
pub from_binary-binary :
    (sc : SpanContext)
    → length sc.trace_id ≡ 16
    → length sc.span_id ≡ 8
    → is_zero sc ≡ false
    → (b : Bytes) × (binary sc ≡ some b)
      × (length b ≡ 29)
      × (from_binary b
          ≡ some (record sc { trace_options = sc.trace_options % 256; tracestate = none }))
unfolding binary from_binary has_field read_optional read_options
from_binary-binary sc t s z =
    let options : Bytes = 2 ∷ sc.trace_options % 256 ∷ [] in
    let tail : Bytes = sc.span_id ++ options in
    let first = cut 16 sc.trace_id (1 ∷ tail) t in
    let second = cut 8 sc.span_id options s in
    let size : length tail ≡ 10 = omega (arith, length-append sc.span_id options) in
    let whole = length-append sc.trace_id (1 ∷ tail) in
    let long : leb 17 (suc (length (sc.trace_id ++ (1 ∷ tail)))) ≡ true = ground arith in
    let rest : leb 9 (suc (length tail)) ≡ true = ground arith in
    (
      0 ∷ 0 ∷ (sc.trace_id ++ (1 ∷ tail)),
      rw z refl,
      omega arith,
      rw (long, first.0, first.1, rest, second.0, second.1) refl,
    )

-- `FromBinary` accepts a text exactly when it has version 0, then field 0, and then at least the
-- 16 bytes of a trace identifier.
pub from_binary-some_iff :
    (b : Bytes)
    → ((sc : SpanContext) × (from_binary b ≡ some sc))
      ↔ ((rest : Bytes) × (16 ≤ length rest) × (b ≡ 0 ∷ 0 ∷ rest))
unfolding from_binary has_field
from_binary-some_iff [] = (λ h. absurd (let no = h.1 in cc), λ h. absurd (let no = h.2 in cc))
from_binary-some_iff (v ∷ []) =
    (λ h. absurd (let no = h.1 in ground arith), λ h. absurd (let no = h.2 in cc))
from_binary-some_iff (v ∷ c ∷ b) = (
  λ h. elim (Bool-cases (v == 0 && (leb 17 (length (c ∷ b)) && c == 0))) [
    | inl e ↦
        let version : v ≡ 0 = ground arith in
        let field : c ≡ 0 = ground arith in (b, ground arith, rw (version, field) refl)
    | inr e ↦ absurd (let no = rw e at h.1 in cc)
  ],
  λ h.
      let same = h.2 in
      let version : v ≡ 0 = cc in
      let field : c ≡ 0 = cc in
      let rest : b ≡ h.0 = cc in
      let e : (v == 0 && (leb 17 (length (c ∷ b)) && c == 0)) ≡ true = ground (arith, h.1, rest) in
      (read_optional (take 16 b) (drop 16 b), rw e refl),
)
