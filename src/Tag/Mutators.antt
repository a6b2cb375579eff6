-- ===== src/Tag/Mutators.antt =====
-- tag/map.go and tag/metadata.go: the operations of a tag map, the mutators and `New`.
-- A context is represented by the map it holds, if any; on an error `New` returns its context
-- unchanged, here `err`.
pub mod Laws
mod Examples
use opencensus_go.Tag.{
  Result, ok, err, panic, stuck, guard, ◌>>=◌, ◌>>◌, invalid_key_name, invalid_value, Key, Ttl,
  Metadatas, TagContent, Map, ttl_unlimited_propagation, ttl_no_propagation,
}
use opencensus_go.Tag.Validate.{check_key_name, check_value}
use opencensus_go.Prelude.{
  ◌≡◌, refl, List, [], ◌∷◌, Bool, true, false, Option, none, some, arith, Bytes, bytes_eq,
  if◌then◌else◌, lookup, erase, IsMap, All, lookup-insert, lookup-erase, insert-IsMap, erase-IsMap,
  beq_refl, Equality, ◌==◌,
}
use opencensus_go.Prelude.{insert as insert_entry}

-- `Value`: the second result is whether the key is there.
unfoldable pub value : Map → Key → Bytes × Bool
value m k = elim (lookup k m) [ none ↦ ([], false) | some v ↦ (v.value, true) ]

unfoldable pub insert : Map → Key → Bytes → Metadatas → Map
insert m k v md = elim (lookup k m) [
  | none ↦ insert_entry k (record { value = v; m = md }) m
  | some _ ↦ m
]

unfoldable pub update : Map → Key → Bytes → Metadatas → Map
update m k v md = elim (lookup k m) [
  | none ↦ m
  | some _ ↦ insert_entry k (record { value = v; m = md }) m
]

unfoldable pub upsert : Map → Key → Bytes → Metadatas → Map
upsert m k v md = insert_entry k (record { value = v; m = md }) m

unfoldable pub delete : Map → Key → Map
delete m k = erase k m

-- A `Metadata` is a function on the metadata; `none` is a nil one, which is skipped.
abbrev pub Metadata : Type 0
Metadata = Option (Metadatas → Metadatas)

abbrev pub with_ttl : Ttl → Metadata
with_ttl ttl = some λ m. record m { ttl = ttl }

apply_metadatas : Metadatas → List Metadata → Metadatas
apply_metadatas metas [] = metas
apply_metadatas metas (none ∷ mds) = apply_metadatas metas mds
apply_metadatas metas (some md ∷ mds) = apply_metadatas (md metas) mds

-- The zero metadata has a TTL of 0; with no argument the TTL is unlimited.
unfoldable pub create_metadatas : List Metadata → Metadatas
unfolding apply_metadatas
create_metadatas [] = record { ttl = ttl_unlimited_propagation }
create_metadatas (md ∷ mds) = apply_metadatas (record { ttl = ttl_no_propagation }) (md ∷ mds)

-- The mutators that `Insert`, `Update`, `Upsert` and `Delete` make.
pub data Mutator : Type 0 where
  inserts updates upserts : Key → Bytes → List Metadata → Mutator
  deletes : Key → Mutator

unfoldable pub mutate : Mutator → Map → Result Map
unfolding create_metadatas insert update upsert delete
mutate (inserts k v mds) m = do
  guard (check_value v) invalid_value
  ok (insert m k v (create_metadatas mds))
mutate (updates k v mds) m = do
  guard (check_value v) invalid_value
  ok (update m k v (create_metadatas mds))
mutate (upserts k v mds) m = do
  guard (check_value v) invalid_value
  ok (upsert m k v (create_metadatas mds))
mutate (deletes k) m = ok (delete m k)

-- The loop over the map of the incoming context.
unfoldable pub copy_checked : Map → Map → Result Map
copy_checked m [] = ok m
copy_checked m ((k, v) ∷ orig) = do
  guard (check_key_name k) invalid_key_name
  guard (check_value v.value) invalid_value
  copy_checked (insert m k v.value v.m) orig

unfoldable pub mutate_all : List Mutator → Map → Result Map
mutate_all [] m = ok m
mutate_all (change ∷ changes) m = do m' ← mutate change m; mutate_all changes m'

unfoldable pub new : Option Map → List Mutator → Result Map
unfolding copy_checked mutate_all mutate
new none mutators = mutate_all mutators []
new (some orig) mutators = do m ← copy_checked [] orig; mutate_all mutators m
