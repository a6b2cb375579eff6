-- ===== src/Http/Hex/RoundTrip.antt =====
-- Hexadecimal text read back.
use opencensus_go.Http.Hex.{hex_digit, from_hex_digit, encode, decode}
use opencensus_go.Prelude.{
  ℕ, ◌+◌, ◌*◌, ◌/◌, ◌%◌, ◌≡◌, ◌<◌, refl, Bytes, [], ◌∷◌, some, false, length, All, arith, nat_eq,
  ◌==◌,
}

digit : (n : ℕ) → n < 16 → from_hex_digit (hex_digit n) ≡ some n
digit n h = ground arith

abbrev pub IsByte : ℕ → Type 0
IsByte b = b < 256

pub decode-encode : (bs : Bytes) → All IsByte bs → decode (encode bs) ≡ some bs
unfolding encode decode
decode-encode [] h = refl
decode-encode (b ∷ bs) h =
    let high = digit (b / 16) (omega (arith, h.0)) in
    let low = digit (b % 16) (omega arith) in
    let whole : b / 16 * 16 + b % 16 ≡ b = omega arith in
    rw (decode, high, low, decode-encode bs h.1, whole) refl

pub length-encode : (bs : Bytes) → length (encode bs) ≡ 2 * length bs
unfolding encode
length-encode [] = refl
length-encode (b ∷ bs) = omega (arith, length-encode bs)

-- No dash is in a hexadecimal text.
pub encode_no_dash : (bs : Bytes) → All IsByte bs → All (λ c. (c == 0x2d) ≡ false) (encode bs)
unfolding encode
encode_no_dash [] h = tt
encode_no_dash (b ∷ bs) h = (ground (arith, h.0), (ground arith, encode_no_dash bs h.1))
