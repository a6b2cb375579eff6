-- ===== src/Metric/Registry/Names.antt =====
-- Adding metrics by name.
use opencensus_go.Metric.Base.{BaseMetricType, BaseMetric}
use opencensus_go.Metric.Registry.{
  Registry, Options, create_metric_option, same_type, new_base_metric, find_metric, store_metric,
  init_base_metric,
}
use opencensus_go.Prelude.{
  ℕ, ◌+◌, ◌≡◌, ◌<◌, refl, Bytes, bytes_eq, nat_eq, ◌==◌, List, [], ◌∷◌, none, some, false, lookup,
  lookup-insert, beq_refl, All, All-insert, All-lookup, Bool-cases, Option-cases, inl, inr, ◌⊎◌,
  arith, if◌then◌else◌,
}

-- The addresses of a registry are in use.
abbrev pub IsAllocated : {F : Type 0} → Registry F → Type 0
IsAllocated r = All (λ e. e.1 < r.next) r.base_metrics

module _ {F : Type 0} (r : Registry F) (name : Bytes) (bm : BaseMetric F) where
  find_metric-store_metric :
      (other : Bytes)
      → IsAllocated r
      → find_metric (store_metric r name bm) other
        ≡ (if name == other then some bm else find_metric r other)
  unfolding find_metric store_metric
  find_metric-store_metric other h = elim (Bool-cases (name == other)) [
    | inl e ↦
        rw (find_metric, lookup-insert name other r.next r.base_metrics, e)
          (rw (lookup-insert r.next r.next bm r.heap, beq_refl r.next) refl)
    | inr e ↦ elim (Option-cases (lookup other r.base_metrics)) [
      | inl f ↦ rw (find_metric, lookup-insert name other r.next r.base_metrics, e, f) refl
      | inr (x, f) ↦
          let used : x < r.next =
            All-lookup (λ (e : Bytes × ℕ). e.1 < r.next) other x r.base_metrics h f in
          let old : (r.next == x) ≡ false = ground arith in
          rw (find_metric, lookup-insert name other r.next r.base_metrics, e, f)
            (rw (lookup-insert r.next x bm r.heap, old) refl)
    ]
  ]

  weaken : (m : List (Bytes × ℕ)) → All (λ e. e.1 < r.next) m → All (λ e. e.1 < r.next + 1) m
  weaken [] h = tt
  weaken (e ∷ m) h = (omega (arith, h.0), weaken m h.1)

  store_metric-IsAllocated : IsAllocated r → IsAllocated (store_metric r name bm)
  unfolding store_metric
  store_metric-IsAllocated h =
      All-insert (λ (e : Bytes × ℕ). e.1 < r.next + 1) name r.next r.base_metrics
        (weaken r.base_metrics h) (omega arith)

-- What the registry finds under a name after a metric of a type was added under another.
module _ {F : Type 0} (r : Registry F) (bm_type : BaseMetricType) (name : Bytes)
    (mos : List Options) (now : ℕ) (h : IsAllocated r) where
  abbrev made : BaseMetric F
  made = new_base_metric bm_type name (create_metric_option mos) now

  -- The existing metric is of another type.
  abbrev pub Conflicts : Type 0
  Conflicts =
      (old : BaseMetric F) × (find_metric r name ≡ some old)
      × (same_type old.bm_type bm_type ≡ false)

  abbrev pub Stored : Registry F → Type 0
  Stored r' =
      IsAllocated r'
      × ((other : Bytes)
          → find_metric r' other ≡ (if name == other then some made else find_metric r other))

  stored : Stored (store_metric r name made)
  stored = (
    store_metric-IsAllocated r name made h,
    λ other. find_metric-store_metric r name made other h,
  )

  -- Adding a metric fails exactly when a metric of another type has its name. Otherwise the new
  -- metric stands under its name, also in place of one of the same type, and under every other name
  -- stands what stood there; so the type of the metric under a name never changes.
  pub init_base_metric_lem :
      (Conflicts × (init_base_metric r bm_type name mos now ≡ none))
      ⊎ ((¬ Conflicts)
          × ((r' : Registry F) × (init_base_metric r bm_type name mos now ≡ some (r.next, r'))
              × Stored r'))
  unfolding init_base_metric new_base_metric
  init_base_metric_lem = elim (Option-cases (find_metric r name)) [
    | inl e ↦ inr (
      λ c. (let no = c.1 in cc),
      (store_metric r name made, rw (init_base_metric, e) refl, stored),
    )
    | inr (old, e) ↦ elim (Bool-cases (same_type old.bm_type bm_type)) [
      | inr t ↦ inl ((old, e, t), rw (init_base_metric, e, t) refl)
      | inl t ↦ inr (
        λ c. let same : old ≡ c.0 = cc in (let no = rw (← same) at c.2 in cc),
        (store_metric r name made, rw (init_base_metric, e, t) refl, stored),
      )
    ]
  ]
