-- ===== src/Stats/Views.antt =====
-- stats/view/view.go: views and their canonical form.
use opencensus_go.Floats.{Floats}
use opencensus_go.Stats.Aggregation.{Aggregation, deep_equal}
use opencensus_go.Stats.Measures.{Measure}
use opencensus_go.Prelude.{
  Bytes, bytes_eq, nat_eq, ◌==◌, List, [], ◌∷◌, Bool, true, false, not, ◌&&◌, ◌||◌, Option, none,
  some, leb, length, sort_by, if◌then◌else◌,
}

-- A nil measure or aggregation is `none`.
pub record View (F : Type 0) : Type 0 where
  pub name : Bytes
  pub description : Bytes
  pub tag_keys : List Bytes
  pub measure : Option Measure
  pub aggregation : Option (Aggregation F)

pub data Error : Type 0 where
  measure_not_set aggregation_not_set invalid_view_name negative_bucket_bounds : Error
  different_view not_registered not_subscribed : Error

-- `sort.Slice` by the names of keys.
unfoldable pub sort_keys : List Bytes → List Bytes
unfolding sort_by
sort_keys keys = sort_by (λ (k : Bytes). k) keys

unfoldable pub with_name : {F : Type 0} → View F → Bytes → View F
with_name v name = record v { name = name }

module _ {F : Type 0} (floats : Floats F) where
  abbrev is_nan : F → Bool
  is_nan x = not (floats.equal x x)

  -- The order of `sort.Float64s`, which puts a NaN first.
  abbrev before : F → F → Bool
  before x y = floats.less x y || is_nan x && not (is_nan y)

  unfoldable pub insert_bound : F → List F → List F
  insert_bound x [] = x ∷ []
  insert_bound x (y ∷ ys) =
      let rest = insert_bound x ys in if before y x then y ∷ rest else x ∷ y ∷ ys

  unfoldable pub sort_bounds : List F → List F
  unfolding insert_bound
  sort_bounds [] = []
  sort_bounds (x ∷ xs) = insert_bound x (sort_bounds xs)

  unfoldable pub has_negative : List F → Bool
  has_negative [] = false
  has_negative (b ∷ bounds) =
      let rest = has_negative bounds in if floats.less b floats.zero then true else rest

  -- The bounds from the first positive one on.
  unfoldable pub drop_zero_bounds : List F → List F
  drop_zero_bounds [] = []
  drop_zero_bounds (b ∷ bounds) =
      let rest = drop_zero_bounds bounds in if floats.less floats.zero b then b ∷ bounds else rest

is_printable : Bytes → Bool
is_printable [] = true
is_printable (c ∷ cs) = leb 0x20 c && leb c 0x7e && is_printable cs

pub check_view_name : Bytes → Bool
unfolding is_printable
check_view_name name = leb (length name) 255 && is_printable name

abbrev if_empty : Bytes → Bytes → Bytes
if_empty [] default = default
if_empty (c ∷ cs) default = c ∷ cs

-- A view with its measure and its aggregation, which are not nil.
pub record Canonical (F : Type 0) : Type 0 where
  pub name : Bytes
  pub description : Bytes
  pub tag_keys : List Bytes
  pub measure : Measure
  pub aggregation : Aggregation F

pub data Outcome (F : Type 0) : Type 0 where
  ok : Canonical F → Outcome F
  err : Error → Outcome F

module _ {F : Type 0} (floats : Floats F) where
  canonical : View F → Measure → Aggregation F → Outcome F
  unfolding check_view_name sort_keys sort_bounds has_negative drop_zero_bounds
  canonical v m a =
      let name = if_empty v.name m.name in
      let bounds = sort_bounds floats a.buckets in
      if check_view_name name
      then (if has_negative floats bounds
          then err negative_bucket_bounds
          else ok (record {
            name = name;
            description = if_empty v.description m.description;
            tag_keys = sort_keys v.tag_keys;
            measure = m;
            aggregation = record a { buckets = drop_zero_bounds floats bounds };
          }))
      else err invalid_view_name

  unfoldable pub canonicalize : View F → Outcome F
  unfolding canonical
  canonicalize v = elim v.measure [
    | none ↦ err measure_not_set
    | some m ↦ elim v.aggregation [ none ↦ err aggregation_not_set | some a ↦ canonical v m a ]
  ]

-- Views are compared by their measures and aggregations.
unfoldable pub same : {F : Type 0} → Floats F → Canonical F → Canonical F → Bool
unfolding deep_equal
same floats v other =
    deep_equal floats v.aggregation other.aggregation && v.measure.name == other.measure.name
