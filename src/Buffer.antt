-- ===== src/Buffer.antt =====
-- Byte slices that are written in place: `copy`, and the buffer that doubles when it is too short,
-- which internal/tagencoding/tagencoding.go and tag/map_codec.go each have a copy of.
use Prim.Native.Nat.add
use opencensus_go.Prelude.{
  ℕ, zero, suc, ◌+◌, ◌*◌, ◌≤◌, ◌≡◌, refl, sym, ap, List, [], ◌∷◌, ◌++◌, arith, Bytes, ltb,
  if◌then◌else◌, length, set, take, drop, replicate, length-replicate, take_append_left,
}

-- Go's `copy(dst[i:], src)`: it stops at the end of the shorter slice.
unfoldable pub copy {ℓ} : {A : Type ℓ} → List A → ℕ → List A → List A
copy [] i src = []
copy (d ∷ ds) (suc i) src = d ∷ copy ds i src
copy (d ∷ ds) zero [] = d ∷ ds
copy (d ∷ ds) zero (s ∷ ss) = s ∷ copy ds zero ss

module _ {ℓ} {A : Type ℓ} where
  pub length-copy : (dst : List A) (i : ℕ) (src : List A) → length (copy dst i src) ≡ length dst
  unfolding copy
  length-copy [] i src = refl
  length-copy (d ∷ ds) (suc i) src = ap suc (length-copy ds i src)
  length-copy (d ∷ ds) zero [] = refl
  length-copy (d ∷ ds) zero (s ∷ ss) = ap suc (length-copy ds zero ss)

  pub copy_nil : (dst : List A) → copy dst 0 [] ≡ dst
  unfolding copy
  copy_nil [] = refl
  copy_nil (d ∷ ds) = refl

  pub copy_zero :
      (dst src : List A) → length src ≤ length dst → copy dst 0 src ≡ src ++ drop (length src) dst
  unfolding copy
  copy_zero [] [] h = refl
  copy_zero [] (s ∷ ss) h = absurd (omega arith)
  copy_zero (d ∷ ds) [] h = refl
  copy_zero (d ∷ ds) (s ∷ ss) h = ap (◌∷◌ s) (copy_zero ds ss (omega arith))

  pub take-copy_zero :
      (dst src : List A) → length src ≤ length dst → take (length src) (copy dst 0 src) ≡ src
  unfolding copy
  take-copy_zero dst [] h = refl
  take-copy_zero [] (s ∷ ss) h = absurd (omega arith)
  take-copy_zero (d ∷ ds) (s ∷ ss) h = ap (◌∷◌ s) (take-copy_zero ds ss (omega arith))

  -- What stands before the end of the copied part.
  pub take-copy :
      (dst : List A) (i : ℕ) (src : List A)
      → i + length src ≤ length dst
      → take (i + length src) (copy dst i src) ≡ take i dst ++ src
  unfolding copy
  take-copy dst zero src h = rw (add.zero (length src)) (take-copy_zero dst src (omega arith))
  take-copy [] (suc i) src h = absurd (omega arith)
  take-copy (d ∷ ds) (suc i) src h =
      rw (add.suc i (length src)) (ap (◌∷◌ d) (take-copy ds i src (omega arith)))

  pub set-copy : (xs : List A) (i : ℕ) (v : A) → set xs i v ≡ copy xs i (v ∷ [])
  unfolding copy
  set-copy [] i v = refl
  set-copy (x ∷ xs) zero v = ap (◌∷◌ v) (sym (copy_nil xs))
  set-copy (x ∷ xs) (suc i) v = ap (◌∷◌ x) (set-copy xs i v)

-- `growIfRequired`: the slice, or a longer one that begins with it.
unfoldable pub grow : Bytes → ℕ → ℕ → Bytes
grow buf write_index expected =
    if ltb (length buf) (write_index + expected)
    then copy (replicate (2 * (length buf + 1) + expected) 0) 0 buf
    else buf

-- After it there is room for `expected` bytes.
pub grow_room : (buf : Bytes) (i n : ℕ) → i ≤ length buf → i + n ≤ length (grow buf i n)
unfolding grow
grow_room buf i n h = ground (
  arith,
  length-copy (replicate (2 * (length buf + 1) + n) 0) 0 buf,
  length-replicate {A = ℕ} (2 * (length buf + 1) + n) 0,
)

pub take-grow : (buf : Bytes) (i n : ℕ) → i ≤ length buf → take i (grow buf i n) ≡ take i buf
unfolding grow
take-grow buf i n h = ground (
  arith,
  copy_zero (replicate (2 * (length buf + 1) + n) 0) buf,
  length-replicate {A = ℕ} (2 * (length buf + 1) + n) 0,
  take_append_left i buf (drop (length buf) (replicate (2 * (length buf + 1) + n) 0)),
)

-- A write behind a growth appends to what was written before.
pub take-copy-grow :
    (buf : Bytes) (i n : ℕ) (src : Bytes)
    → i ≤ length buf
    → length src ≤ n
    → take (i + length src) (copy (grow buf i n) i src) ≡ take i buf ++ src
take-copy-grow buf i n src h k =
    cc (take-copy (grow buf i n) i src (omega (arith, grow_room buf i n h)), take-grow buf i n h)

pub copy-grow_room :
    (buf : Bytes) (i n : ℕ) (src : Bytes)
    → i ≤ length buf
    → length src ≤ n
    → i + length src ≤ length (copy (grow buf i n) i src)
copy-grow_room buf i n src h k =
    omega (arith, grow_room buf i n h, length-copy (grow buf i n) i src)
