-- ===== src/Stats/Aggregation.antt =====
-- stats/view/aggregation.go: the ways to aggregate the samples of a view.
use opencensus_go.Floats.{Floats}
use opencensus_go.Prelude.{ℕ, Bool, true, false, not, ◌&&◌, ◌||◌, ◌==◌, nat_eq, List, [], ◌∷◌}

pub data AggType : Type 0 where
  agg_none agg_count agg_sum agg_distribution agg_last_value : AggType

-- An aggregation is shared by pointer: `address` tells two of the same contents apart. Its field
-- `newData` is nil in a literal of another package; else it is `Stats.AggregationData.new_data`,
-- which reads the type and the buckets.
pub record Aggregation (F : Type 0) : Type 0 where
  pub address : ℕ
  pub agg_type : AggType
  pub buckets : List F
  pub has_new_data : Bool

module _ {F : Type 0} where
  -- `Count` and `Sum` always give the same pointer, the others a new one.
  unfoldable pub count : Aggregation F
  count = record { address = 0; agg_type = agg_count; buckets = []; has_new_data = true }

  unfoldable pub sum : Aggregation F
  sum = record { address = 1; agg_type = agg_sum; buckets = []; has_new_data = true }

  unfoldable pub distribution : ℕ → List F → Aggregation F
  distribution new bounds = record {
    address = new;
    agg_type = agg_distribution;
    buckets = bounds;
    has_new_data = true;
  }

  unfoldable pub last_value : ℕ → Aggregation F
  last_value new = record {
    address = new;
    agg_type = agg_last_value;
    buckets = [];
    has_new_data = true;
  }

-- `==` of types.
abbrev type_equal : AggType → AggType → Bool
type_equal agg_none agg_none = true
type_equal agg_count agg_count = true
type_equal agg_sum agg_sum = true
type_equal agg_distribution agg_distribution = true
type_equal agg_last_value agg_last_value = true
type_equal _ _ = false

module _ {F : Type 0} (floats : Floats F) where
  -- Slices of floats; those of a canonical view are not nil.
  buckets_equal : List F → List F → Bool
  buckets_equal [] [] = true
  buckets_equal [] (y ∷ ys) = false
  buckets_equal (x ∷ xs) [] = false
  buckets_equal (x ∷ xs) (y ∷ ys) = let rest = buckets_equal xs ys in floats.equal x y && rest

  -- `reflect.DeepEqual` of two pointers to aggregations: the same pointer, or equal contents, where
  -- two functions are equal only if both are nil.
  unfoldable pub deep_equal : Aggregation F → Aggregation F → Bool
  unfolding buckets_equal
  deep_equal a b =
      a.address == b.address
      || not a.has_new_data
        && not b.has_new_data
        && type_equal a.agg_type b.agg_type
        && buckets_equal a.buckets b.buckets
