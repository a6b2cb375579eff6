-- ===== src/Resource.antt =====
-- resource/resource.go: the merge of resources and the detection in order.
pub mod Laws
mod Examples
use opencensus_go.Prelude.{Bytes, bytes_eq, List, [], ◌∷◌, Option, none, some, insert}

pub record Resource : Type 0 where
  pub type_of : Bytes
  pub labels : List (Bytes × Bytes)

-- `for k, v := range labels { res.Labels[k] = v }`
unfoldable pub put_all : List (Bytes × Bytes) → List (Bytes × Bytes) → List (Bytes × Bytes)
put_all [] m = m
put_all ((k, v) ∷ labels) m = put_all labels (insert k v m)

abbrev pub type_or : Bytes → Bytes → Bytes
type_or [] other = other
type_or (c ∷ cs) other = c ∷ cs

-- A nil resource is `none`.
unfoldable pub merge : Option Resource → Option Resource → Option Resource
unfolding put_all
merge none b = b
merge (some a) none = some a
merge (some a) (some b) = some (record {
  type_of = type_or a.type_of b.type_of;
  labels = put_all a.labels (put_all b.labels []);
})

-- What each detector finds, in order; `none` is an error, which ends the loop.
unfoldable pub detect_from :
    Option Resource → List (Option (Option Resource)) → Option (Option Resource)
unfolding merge
detect_from res [] = some res
detect_from res (none ∷ found) = none
detect_from res (some r ∷ found) = detect_from (merge res r) found

unfoldable pub detect_all : List (Option (Option Resource)) → Option (Option Resource)
unfolding detect_from
detect_all found = detect_from none found
