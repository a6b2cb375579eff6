-- ===== src/Prelude/Maps.antt =====
-- A Go map as an association list. The order of the list is one that a `range` loop may take:
-- a statement for every list is a statement for every order of the loop.
use mathlib.Core.Path.{◌≡◌, refl}
use mathlib.Core.Bool.{Bool, false}
use mathlib.Core.List.{List, [], ◌∷◌, ◌++◌}
use mathlib.Core.Option.{Option, none, some}
use native.Mathlib.Omega.{arith}
use mathlib.Core.Logic.{inl, inr}
use opencensus_go.Prelude.Tests.{Equality, if◌then◌else◌, Bool-cases}
use opencensus_go.Prelude.Lists.{All}

module _ {ℓ κ} {K : Type ℓ} {V : Type κ} ⦃e : Equality K⦄ where
  abbrev pub lookup : K → List (K × V) → Option V
  lookup k [] = none
  lookup k ((j, v) ∷ m) = if e.beq j k then some v else lookup k m

  -- `m[k] = v`: the entry is overwritten where it stands, or is new.
  abbrev pub insert : K → V → List (K × V) → List (K × V)
  insert k v [] = (k, v) ∷ []
  insert k v ((j, w) ∷ m) = if e.beq j k then (k, v) ∷ m else (j, w) ∷ insert k v m

  -- `delete(m, k)`
  abbrev pub erase : K → List (K × V) → List (K × V)
  erase k [] = []
  erase k ((j, w) ∷ m) = let rest = erase k m in if e.beq j k then rest else (j, w) ∷ rest

  -- A key has one entry.
  abbrev pub IsMap : List (K × V) → Type κ
  IsMap [] = Unit {κ}
  IsMap ((j, w) ∷ m) = (lookup j m ≡ none) × IsMap m

  pub lookup-insert :
      (k j : K) (v : V) (m : List (K × V))
      → lookup j (insert k v m) ≡ (if e.beq k j then some v else lookup j m)
  lookup-insert k j v [] = refl
  lookup-insert k j v ((i, w) ∷ m) =
      ground (arith, e.beq_iff k j, e.beq_iff i k, e.beq_iff i j, lookup-insert k j v m)

  pub lookup-erase :
      (k j : K) (m : List (K × V)) → lookup j (erase k m) ≡ (if e.beq k j then none else lookup j m)
  lookup-erase k j [] = ground arith
  lookup-erase k j ((i, w) ∷ m) =
      ground (arith, e.beq_iff k j, e.beq_iff i k, e.beq_iff i j, lookup-erase k j m)

  pub insert-IsMap : (k : K) (v : V) (m : List (K × V)) → IsMap m → IsMap (insert k v m)
  insert-IsMap k v [] h = (refl, tt)
  insert-IsMap k v ((i, w) ∷ m) h =
      ground (arith, e.beq_iff i k, e.beq_iff k i, lookup-insert k i v m, insert-IsMap k v m h.1)

  pub erase-IsMap : (k : K) (m : List (K × V)) → IsMap m → IsMap (erase k m)
  erase-IsMap k [] h = tt
  erase-IsMap k ((i, w) ∷ m) h = ground (arith, lookup-erase k i m, erase-IsMap k m h.1)

  -- An entry of a longer list is not hidden by those before it.
  lookup-append_none :
      (j k : K) (v : V) (m n : List (K × V))
      → lookup j (m ++ ((k, v) ∷ n)) ≡ none
      → e.beq k j ≡ false
  lookup-append_none j k v [] n h = ground arith
  lookup-append_none j k v ((i, w) ∷ m) n h =
      ground (arith, lookup-append_none j k v m n, e.beq_iff i j)

  pub IsMap-append_none :
      (k : K) (v : V) (m n : List (K × V)) → IsMap (m ++ ((k, v) ∷ n)) → lookup k m ≡ none
  IsMap-append_none k v [] n h = refl
  IsMap-append_none k v ((i, w) ∷ m) n h = ground (
    arith,
    e.beq_iff i k,
    e.beq_iff k i,
    lookup-append_none i k v m n,
    IsMap-append_none k v m n h.1,
  )

  pub insert_new :
      (k : K) (v : V) (m : List (K × V)) → lookup k m ≡ none → insert k v m ≡ m ++ ((k, v) ∷ [])
  insert_new k v [] h = refl
  insert_new k v ((i, w) ∷ m) h = ground (arith, insert_new k v m)

  -- The entries whose value passes a test.
  abbrev pub filter_values : (V → Bool) → List (K × V) → List (K × V)
  filter_values p [] = []
  filter_values p ((k, v) ∷ m) = let rest = filter_values p m in if p v then (k, v) ∷ rest else rest

  lookup-filter_values :
      (p : V → Bool) (k : K) (m : List (K × V))
      → lookup k m ≡ none
      → lookup k (filter_values p m) ≡ none
  lookup-filter_values p k [] h = refl
  lookup-filter_values p k ((i, w) ∷ m) h = ground (arith, lookup-filter_values p k m)

  pub filter_values-IsMap : (p : V → Bool) (m : List (K × V)) → IsMap m → IsMap (filter_values p m)
  filter_values-IsMap p [] h = tt
  filter_values-IsMap p ((i, w) ∷ m) h =
      ground (arith, lookup-filter_values p i m, filter_values-IsMap p m h.1)

  -- A predicate of all entries.
  pub All-insert {ι} :
      (P : K × V → Type ι) (k : K) (v : V) (m : List (K × V))
      → All P m
      → P (k, v)
      → All P (insert k v m)
  All-insert P k v [] h p = (p, tt)
  All-insert P k v ((i, w) ∷ m) h p = elim (Bool-cases (e.beq i k)) [
    | inl t ↦ rw t (p, h.1)
    | inr t ↦ rw t (h.0, All-insert P k v m h.1 p)
  ]

  pub All-lookup {ι} :
      (P : K × V → Type ι) (k : K) (v : V) (m : List (K × V))
      → All P m
      → lookup k m ≡ some v
      → P (k, v)
  All-lookup P k v [] h f = absurd (cc)
  All-lookup P k v ((i, w) ∷ m) h f = elim (Bool-cases (e.beq i k)) [
    | inl t ↦
        let same : i ≡ k = (e.beq_iff i k).0 t in
        let found : some w ≡ some v = rw t at f in
        let value : w ≡ v = cc in rw (← same, ← value) h.0
    | inr t ↦ All-lookup P k v m h.1 (rw t at f)
  ]

  pub All-erase {ι} : (P : K × V → Type ι) (k : K) (m : List (K × V)) → All P m → All P (erase k m)
  All-erase P k [] h = tt
  All-erase P k ((i, w) ∷ m) h = elim (Bool-cases (e.beq i k)) [
    | inl t ↦ rw t (All-erase P k m h.1)
    | inr t ↦ rw t (h.0, All-erase P k m h.1)
  ]
