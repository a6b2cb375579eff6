-- ===== src/Resource/Examples.antt =====
-- The merge of two resources that share a label.
use opencensus_go.Resource.{Resource, merge, type_or}
use opencensus_go.Resource.Laws.{first_of, merge_lem}
use opencensus_go.Prelude.{Bytes, bytes_eq, ◌≡◌, refl, [], ◌∷◌, some, lookup, IsMap}

abbrev host : Resource
host = record { type_of = []; labels = ((1 ∷ []), (2 ∷ [])) ∷ [] }

abbrev cloud : Resource
cloud = record { type_of = 9 ∷ []; labels = ((1 ∷ []), (3 ∷ [])) ∷ ((4 ∷ []), (5 ∷ [])) ∷ [] }

merge_lem_example :
    (r : Resource) × (merge (some host) (some cloud) ≡ some r)
    × ((key : Bytes)
        → lookup key r.labels ≡ first_of (lookup key host.labels) (lookup key cloud.labels))
    × IsMap r.labels
    × (r.type_of ≡ type_or host.type_of cloud.type_of)
merge_lem_example = merge_lem host cloud (refl, tt) (refl, (refl, tt))
