-- ===== src/Prelude/Sorted.antt =====
-- The sort by a text: its result is sorted and has the same items.
use mathlib.Core.Bool.{true, false}
use mathlib.Core.List.{List, [], ◌∷◌, Perm}
use mathlib.Core.List.Perm
use mathlib.Core.Path.{◌≡◌, refl}
use mathlib.Core.Logic.{inl, inr}
use native.Mathlib.Omega.{arith}
use opencensus_go.Prelude.Tests.{Bytes, Bool-cases}
use opencensus_go.Prelude.Texts.{text_less, insert_by, sort_by}

pub text_less_asym : (xs ys : Bytes) → text_less xs ys ≡ true → text_less ys xs ≡ false
unfolding text_less
text_less_asym xs [] h = absurd (cc)
text_less_asym [] (y ∷ ys) h = refl
text_less_asym (x ∷ xs) (y ∷ ys) h = let rest = text_less_asym xs ys in ground (arith, rest)

module _ {B : Type 0} (key : B → Bytes) where
  -- No item has a smaller text than the one before it.
  abbrev pub IsSortedBy : List B → Type 0
  IsSortedBy [] = Unit {0}
  IsSortedBy (x ∷ []) = Unit {0}
  IsSortedBy (x ∷ (y ∷ ys)) = (text_less (key y) (key x) ≡ false) × IsSortedBy (y ∷ ys)

  insert_after :
      (y x : B) (ys : List B)
      → text_less (key x) (key y) ≡ false
      → IsSortedBy (y ∷ ys)
      → IsSortedBy (y ∷ insert_by key x ys)
  unfolding insert_by
  insert_after y x [] a h = (a, tt)
  insert_after y x (z ∷ zs) a h = elim (Bool-cases (text_less (key z) (key x))) [
    | inl e ↦ rw e (h.0, insert_after z x zs (text_less_asym (key z) (key x) e) h.1)
    | inr e ↦ rw e (a, (e, h.1))
  ]

  insert_by-IsSortedBy : (x : B) (ys : List B) → IsSortedBy ys → IsSortedBy (insert_by key x ys)
  unfolding insert_by
  insert_by-IsSortedBy x [] h = tt
  insert_by-IsSortedBy x (y ∷ ys) h = elim (Bool-cases (text_less (key y) (key x))) [
    | inl e ↦ rw e (insert_after y x ys (text_less_asym (key y) (key x) e) h)
    | inr e ↦ rw e (e, h)
  ]

  pub sort_by-IsSortedBy : (xs : List B) → IsSortedBy (sort_by key xs)
  unfolding sort_by
  sort_by-IsSortedBy [] = tt
  sort_by-IsSortedBy (x ∷ xs) = insert_by-IsSortedBy x (sort_by key xs) (sort_by-IsSortedBy xs)

  insert_by-Perm : (x : B) (ys : List B) → Perm (insert_by key x ys) (x ∷ ys)
  unfolding insert_by
  insert_by-Perm x [] = Perm.refl (x ∷ [])
  insert_by-Perm x (y ∷ ys) = elim (Bool-cases (text_less (key y) (key x))) [
    | inl e ↦ rw e (Perm.trans (Perm.cons y (insert_by-Perm x ys)) (Perm.swap x y ys))
    | inr e ↦ rw e (Perm.refl (x ∷ y ∷ ys))
  ]

  pub sort_by-Perm : (xs : List B) → Perm (sort_by key xs) xs
  unfolding sort_by
  sort_by-Perm [] = Perm.refl []
  sort_by-Perm (x ∷ xs) =
      Perm.trans (insert_by-Perm x (sort_by key xs)) (Perm.cons x (sort_by-Perm xs))
