-- ===== src/Tag/Varint.antt =====
-- `binary.PutUvarint` and `binary.Uvarint` of Go's standard library, as tag/map_codec.go uses them.
use native.Mathlib.Nat.{div-add-mod}
use opencensus_go.Prelude.{
  ℕ, zero, suc, ◌+◌, ◌*◌, ◌/◌, ◌%◌, ◌^◌, ◌≤◌, ◌<◌, ◌≡◌, refl, ap, ◌∙◌, [], ◌∷◌, ◌++◌, Option, none,
  some, arith, Bytes, ◌&&◌, ltb, ◌==◌, nat_eq, if◌then◌else◌, length,
}

-- Seven bits a byte, lowest first, for `fuel` bytes at most; ten are enough for a uint64.
unfoldable pub put_uvarint : ℕ → ℕ → Bytes
put_uvarint zero v = []
put_uvarint (suc fuel) v =
    let rest = put_uvarint fuel (v / 128) in if ltb v 128 then v ∷ [] else (v % 128 + 128) ∷ rest

abbrev pub max_varint_len64 : ℕ
max_varint_len64 = 10

-- `i` bytes are read; `x` is what they stand for and `m` the weight of the next one. `none` is a
-- count of 0 or less: the input ends inside the number, or the number does not fit 64 bits.
unfoldable pub uvarint_loop : Bytes → ℕ → ℕ → ℕ → Option (ℕ × ℕ)
uvarint_loop [] i x m = none
uvarint_loop (b ∷ bs) i x m =
    let more = uvarint_loop bs (i + 1) (x + b % 128 * m) (m * 128) in
    if i == max_varint_len64
    then none
    else if ltb b 128
    then (if i == 9 && ltb 1 b then none else some (x + b * m, i + 1))
    else more

unfoldable pub uvarint : Bytes → Option (ℕ × ℕ)
unfolding uvarint_loop
uvarint buf = uvarint_loop buf 0 0 1

pub length-put_uvarint : (fuel v : ℕ) → length (put_uvarint fuel v) ≤ fuel
unfolding put_uvarint
length-put_uvarint zero v = omega arith
length-put_uvarint (suc fuel) v = ground (arith, length-put_uvarint fuel (v / 128))

weigh : (v m x : ℕ) → x + v % 128 * m + v / 128 * (m * 128) ≡ x + v * m
weigh v m x = omega (arith, ap (λ (t : ℕ). t * m) (div-add-mod v 128))

uvarint_loop-put :
    (k i v x m : ℕ) (rest : Bytes)
    → i + k ≡ 9
    → v < 2 * 128 ^ k
    → uvarint_loop (put_uvarint (suc k) v ++ rest) i x m
      ≡ some (x + v * m, i + length (put_uvarint (suc k) v))
unfolding uvarint_loop put_uvarint
uvarint_loop-put zero i v x m rest hi hv = ground arith
uvarint_loop-put (suc k) i v x m rest hi hv = ground (
  arith,
  weigh v m x,
  uvarint_loop-put k (i + 1) (v / 128) (x + v % 128 * m) (m * 128) rest (omega arith) (omega arith),
)

-- Every uint64 reads back, and whatever follows it is left.
pub uvarint-put :
    (v : ℕ) (rest : Bytes)
    → v < 2 ^ 64
    → uvarint (put_uvarint 10 v ++ rest) ≡ some (v, length (put_uvarint 10 v))
unfolding uvarint
uvarint-put v rest h = uvarint_loop-put 9 0 v 0 1 rest refl (omega arith) ∙ ground arith
