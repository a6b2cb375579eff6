-- ===== src/Trace/LruMap.antt =====
-- trace/lrumap.go: a map of bounded size over the cache of groupcache/lru, which is no part of the
-- repository and stands as a parameter.
use opencensus_go.Prelude.{
  ℕ, ◌+◌, Bytes, bytes_eq, List, [], ◌∷◌, Option, none, some, insert, erase,
}

-- The calls of `lru.Cache`: `add` gives also the keys it hands to `OnEvicted`, and `get` may
-- change the order of the entries.
pub record Lru (C : Type 0) : Type 0 where
  pub new : ℕ → C
  pub len : C → ℕ
  pub add : Bytes → Bytes → C → C × List Bytes
  pub get : Bytes → C → C × Option Bytes

pub record LruMap (C : Type 0) : Type 0 where
  pub cache_keys : List (Bytes × Unit {0})
  pub cache : C
  pub dropped_count : ℕ

-- The calls of `OnEvicted`.
evicted : {C : Type 0} → List Bytes → LruMap C → LruMap C
evicted [] lm = lm
evicted (key ∷ keys) lm =
    evicted keys
      (record lm { cache_keys = erase key lm.cache_keys; dropped_count = lm.dropped_count + 1 })

module _ {C : Type 0} (lru : Lru C) where
  unfoldable pub new_lru_map : ℕ → LruMap C
  new_lru_map size = record { cache_keys = []; cache = lru.new size; dropped_count = 0 }

  unfoldable pub add : LruMap C → Bytes → Bytes → LruMap C
  unfolding evicted
  add lm key value =
      let called = lru.add key value lm.cache in
      evicted called.1 (record lm { cache_keys = insert key tt lm.cache_keys; cache = called.0 })

  unfoldable pub add_all : LruMap C → List (Bytes × Bytes) → LruMap C
  unfolding add
  add_all lm [] = lm
  add_all lm ((key, value) ∷ rest) = add_all (add lm key value) rest

  -- The pairs for the keys of `keys`; the nil keys, as many again, are in no cache.
  unfoldable pub to_attribute_map : List (Bytes × Unit {0}) → C → List (Bytes × Bytes)
  to_attribute_map [] cache = []
  to_attribute_map ((key, _) ∷ keys) cache =
      let called = lru.get key cache in
      let rest = to_attribute_map keys called.0 in
      elim called.1 [ none ↦ rest | some value ↦ insert key value rest ]
