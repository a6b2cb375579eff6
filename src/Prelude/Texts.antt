-- ===== src/Prelude/Texts.antt =====
-- The order of texts in Go, and the sort by a text.
use mathlib.Core.Bool.{Bool, true, false}
use mathlib.Core.List.{List, [], ◌∷◌}
use opencensus_go.Prelude.Tests.{Bytes, ltb, if◌then◌else◌}

-- Byte by byte, and a prefix comes first.
unfoldable pub text_less : Bytes → Bytes → Bool
text_less xs [] = false
text_less [] (y ∷ ys) = true
text_less (x ∷ xs) (y ∷ ys) =
    let rest = text_less xs ys in if ltb x y then true else if ltb y x then false else rest

-- `sort.Slice` by a text of each item. Items of the same text keep their order; Go leaves it open.
module _ {ℓ} {B : Type ℓ} (key : B → Bytes) where
  unfoldable pub insert_by : B → List B → List B
  unfolding text_less
  insert_by x [] = x ∷ []
  insert_by x (y ∷ ys) =
      let rest = insert_by x ys in if text_less (key y) (key x) then y ∷ rest else x ∷ y ∷ ys

  unfoldable pub sort_by : List B → List B
  unfolding insert_by
  sort_by [] = []
  sort_by (x ∷ xs) = insert_by x (sort_by xs)
