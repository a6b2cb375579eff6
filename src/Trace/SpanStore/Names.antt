-- ===== src/Trace/SpanStore/Names.antt =====
-- The stores of all names: `spanStoreForNameCreateIfNew`, `spanStoreSetSize` and
-- `ConfigureBucketSizes` keep each of them well formed.
use opencensus_go.Trace.SpanStore.{
  SpanStore, SpanStores, new_span_store, add_active, span_store_for_name_create_if_new,
  span_store_set_size, BucketConfiguration, configure_bucket_sizes, clamp_size, default_bucket_size,
}
use opencensus_go.Trace.SpanStore.Invariant.{IsValid, new_span_store-IsValid, resize_store-IsValid}
use opencensus_go.Prelude.{
  ℕ, Bytes, bytes_eq, List, [], ◌∷◌, some, ◌≡◌, refl, All, All-insert, All-lookup, lookup, insert,
  Option-cases, inl, inr,
}

-- A store is well formed for some size of its latency buckets.
abbrev pub HasSize : Bytes × SpanStore → Type 0
HasSize e = (places : ℕ) × IsValid places e.1

abbrev pub Usable : SpanStores → Type 0
Usable stores = All HasSize stores

pub put-Usable :
    (stores : SpanStores) (name : Bytes) (places : ℕ) (s : SpanStore)
    → Usable stores
    → IsValid places s
    → Usable (insert name s stores)
put-Usable stores name places s u v = All-insert HasSize name s stores u (places, v)

pub made-Usable :
    (stores : SpanStores) (name : Bytes)
    → Usable stores
    → let made = span_store_for_name_create_if_new stores name in
      Usable made.0 × HasSize (name, made.1)
unfolding span_store_for_name_create_if_new
made-Usable stores name u = elim (Option-cases (lookup name stores)) [
  | inl e ↦
      let v = new_span_store-IsValid default_bucket_size default_bucket_size in
      rw (e, span_store_for_name_create_if_new)
        (
          put-Usable stores name default_bucket_size
              (new_span_store default_bucket_size default_bucket_size) u v,
          (default_bucket_size, v),
        )
  | inr (s, e) ↦ rw (e, span_store_for_name_create_if_new) (u, All-lookup HasSize name s stores u e)
]

pub add_active-IsValid :
    (places ptr : ℕ) (s : SpanStore) → IsValid places s → IsValid places (add_active s ptr)
unfolding add_active
add_active-IsValid places ptr s v = record {
  ranges = v.ranges;
  latency_valid = v.latency_valid;
  errors_valid = v.errors_valid;
  one_bucket = v.one_bucket;
}

set_size-Usable :
    (stores : SpanStores) (name : Bytes) (m n : ℕ)
    → Usable stores
    → (stores' : SpanStores) × (span_store_set_size stores name m n ≡ some stores') × Usable stores'
unfolding span_store_set_size
set_size-Usable stores name m n u = elim (Option-cases (lookup name stores)) [
  | inl e ↦ (
    insert name (new_span_store m n) stores,
    rw (e, span_store_set_size) refl,
    put-Usable stores name m (new_span_store m n) u (new_span_store-IsValid m n),
  )
  | inr (s, e) ↦
      let (places, v) = All-lookup HasSize name s stores u e in
      let (s', run, v', _, _) = resize_store-IsValid places m n s v in
      (
        insert name s' stores,
        rw (e, run, span_store_set_size) refl,
        put-Usable stores name m s' u v',
      )
]

-- `ConfigureBucketSizes` never panics and keeps every store well formed.
pub configure_bucket_sizes-Usable :
    (stores : SpanStores) (bcs : List BucketConfiguration)
    → Usable stores
    → (stores' : SpanStores) × (configure_bucket_sizes stores bcs ≡ some stores') × Usable stores'
unfolding configure_bucket_sizes
configure_bucket_sizes-Usable stores [] u = (stores, refl, u)
configure_bucket_sizes-Usable stores (bc ∷ bcs) u =
    let (next, run, u') =
      set_size-Usable stores bc.name (clamp_size bc.max_requests_succeeded)
        (clamp_size bc.max_requests_errors) u in
    let (last, runs, u'') = configure_bucket_sizes-Usable next bcs u' in
    (last, rw (run, configure_bucket_sizes) runs, u'')
