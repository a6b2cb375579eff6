-- ===== src/Resource/Laws.antt =====
-- The labels of a merge.
use opencensus_go.Resource.{Resource, put_all, merge, type_or}
use opencensus_go.Prelude.{
  Bytes, bytes_eq, ◌≡◌, refl, List, [], ◌∷◌, Option, none, some, lookup, insert, IsMap,
  lookup-insert, insert-IsMap, arith,
}

abbrev pub first_of : Option Bytes → Option Bytes → Option Bytes
first_of none other = other
first_of (some v) other = some v

lookup-put_all :
    (key : Bytes) (labels m : List (Bytes × Bytes))
    → IsMap labels
    → lookup key (put_all labels m) ≡ first_of (lookup key labels) (lookup key m)
unfolding put_all
lookup-put_all key [] m h = refl
lookup-put_all key ((k, v) ∷ labels) m h = ground (
  arith,
  lookup-put_all key labels (insert k v m) h.1,
  lookup-insert k key v m,
  bytes_eq.beq_iff k key,
)

put_all-IsMap : (labels m : List (Bytes × Bytes)) → IsMap m → IsMap (put_all labels m)
unfolding put_all
put_all-IsMap [] m h = h
put_all-IsMap ((k, v) ∷ labels) m h = put_all-IsMap labels (insert k v m) (insert-IsMap k v m h)

-- The merge of two resources has under each label the value of the first, and where that has none
-- the value of the second; each label stands once. Its type is that of the first unless it is
-- empty.
pub merge_lem :
    (a b : Resource)
    → IsMap a.labels
    → IsMap b.labels
    → (r : Resource) × (merge (some a) (some b) ≡ some r)
      × ((key : Bytes) → lookup key r.labels ≡ first_of (lookup key a.labels) (lookup key b.labels))
      × IsMap r.labels
      × (r.type_of ≡ type_or a.type_of b.type_of)
unfolding merge
merge_lem a b ha hb = (
  record { type_of = type_or a.type_of b.type_of; labels = put_all a.labels (put_all b.labels []) },
  refl,
  λ key. ground (
    arith,
    lookup-put_all key a.labels (put_all b.labels []) ha,
    lookup-put_all key b.labels [] hb,
  ),
  put_all-IsMap a.labels (put_all b.labels []) (put_all-IsMap b.labels [] tt),
  refl,
)
