-- ===== src/Prelude/Newest.antt =====
-- The newest items of a history, and the list lemmas about windows.
use Prim.Native.Nat.{ℕ, zero, suc, ◌+◌, ◌-◌, ◌≤◌, ◌<◌, min}
use Prim.Native.Nat.add
use mathlib.Core.Path.{◌≡◌, refl, ap}
use mathlib.Core.List.{List, [], ◌∷◌, ◌++◌}
use mathlib.Core.Option.{some}
use native.Mathlib.Omega.{arith}
use opencensus_go.Prelude.Lists.{
  length, take, drop, set, get_elem?, length-append, length-drop, drop_append_left,
}

module _ {ℓ} {A : Type ℓ} where
  -- The last `n` of a list, or all of it.
  abbrev pub newest : ℕ → List A → List A
  newest n xs = drop (length xs - n) xs

  pub drop-drop : (a b : ℕ) (xs : List A) → drop a (drop b xs) ≡ drop (b + a) xs
  drop-drop a zero xs = rw (add.zero a)
  drop-drop zero (suc b) [] = rw (add.suc b 0)
  drop-drop (suc a) (suc b) [] = rw (add.suc b (suc a))
  drop-drop a (suc b) (x ∷ xs) = rw (add.suc b a) (drop-drop a b xs)

  pub take-suc-set :
      (xs : List A) (i : ℕ) (v : A)
      → i < length xs
      → take (suc i) (set xs i v) ≡ take i xs ++ (v ∷ [])
  take-suc-set [] i v h = absurd (omega arith)
  take-suc-set (x ∷ xs) zero v h = refl
  take-suc-set (x ∷ xs) (suc i) v h = ap (◌∷◌ x) (take-suc-set xs i v (omega arith))

  pub drop-suc-set : (xs : List A) (i : ℕ) (v : A) → drop (suc i) (set xs i v) ≡ drop (suc i) xs
  drop-suc-set [] i v = refl
  drop-suc-set (x ∷ xs) zero v = refl
  drop-suc-set (x ∷ xs) (suc i) v = drop-suc-set xs i v

  pub take-suc-drop :
      (xs : List A) (k r : ℕ) (v : A)
      → get_elem? xs k ≡ some v
      → take (suc r) (drop k xs) ≡ v ∷ take r (drop (suc k) xs)
  take-suc-drop [] k r v h = absurd (cc)
  take-suc-drop (x ∷ xs) zero r v h = ap (λ (y : A). y ∷ take r xs) (cc)
  take-suc-drop (x ∷ xs) (suc k) r v h = take-suc-drop xs k r v h

  pub get_elem?_inside : (xs : List A) (i : ℕ) → i < length xs → (v : A) × (get_elem? xs i ≡ some v)
  get_elem?_inside [] i h = absurd (omega arith)
  get_elem?_inside (x ∷ xs) zero h = (x, refl)
  get_elem?_inside (x ∷ xs) (suc i) h = get_elem?_inside xs i (omega arith)

  pub get_elem?-drop : (xs : List A) (k i : ℕ) → get_elem? (drop k xs) i ≡ get_elem? xs (k + i)
  get_elem?-drop xs zero i = rw (add.zero i)
  get_elem?-drop [] (suc k) i = refl
  get_elem?-drop (x ∷ xs) (suc k) i = rw (add.suc k i) (get_elem?-drop xs k i)

  pub get_elem?-take : (xs : List A) (k i : ℕ) → i < k → get_elem? (take k xs) i ≡ get_elem? xs i
  get_elem?-take xs zero i h = absurd (omega arith)
  get_elem?-take [] (suc k) i h = refl
  get_elem?-take (x ∷ xs) (suc k) zero h = refl
  get_elem?-take (x ∷ xs) (suc k) (suc i) h = get_elem?-take xs k i (omega arith)

  pub get_elem?_append_left :
      (xs ys : List A) (i : ℕ) → i < length xs → get_elem? (xs ++ ys) i ≡ get_elem? xs i
  get_elem?_append_left [] ys i h = absurd (omega arith)
  get_elem?_append_left (x ∷ xs) ys zero h = refl
  get_elem?_append_left (x ∷ xs) ys (suc i) h = get_elem?_append_left xs ys i (omega arith)

  pub get_elem?_append_right :
      (xs ys : List A) (i : ℕ) → get_elem? (xs ++ ys) (length xs + i) ≡ get_elem? ys i
  get_elem?_append_right [] ys i = rw (add.zero i)
  get_elem?_append_right (x ∷ xs) ys i = rw (add.suc (length xs) i) (get_elem?_append_right xs ys i)

  -- A full window that takes one more item in loses its oldest.
  pub newest_append_full :
      (n : ℕ) (xs : List A) (v : A)
      → n ≤ length xs
      → 0 < n
      → newest n (xs ++ (v ∷ [])) ≡ drop 1 (newest n xs) ++ (v ∷ [])
  newest_append_full n xs v h p =
      let one : length (xs ++ (v ∷ [])) - n ≡ length xs - n + 1 =
        omega (arith, length-append xs (v ∷ [])) in
      rw (one, drop-drop 1 (length xs - n) xs)
        (drop_append_left (length xs - n + 1) xs (v ∷ []) (omega arith))

  pub newest_append_room :
      (n : ℕ) (xs : List A) (v : A)
      → length xs < n
      → newest n (xs ++ (v ∷ [])) ≡ newest n xs ++ (v ∷ [])
  newest_append_room n xs v h =
      let none_new : length (xs ++ (v ∷ [])) - n ≡ 0 = omega (arith, length-append xs (v ∷ [])) in
      let none_old : length xs - n ≡ 0 = omega arith in rw (none_new, none_old)

  pub length-newest : (n : ℕ) (xs : List A) → length (newest n xs) ≡ min n (length xs)
  length-newest n xs = omega (arith, length-drop (length xs - n) xs)

  pub newest_room : (n : ℕ) (xs : List A) → length xs ≤ n → newest n xs ≡ xs
  newest_room n xs h = let e : length xs - n ≡ 0 = omega arith in rw e
