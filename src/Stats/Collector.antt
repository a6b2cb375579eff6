-- ===== src/Stats/Collector.antt =====
-- stats/view/collector.go: the data of a view, under the values of its tag keys. The data of an
-- aggregation are of a type `D`, and `Aggregator` is what the collector calls on them.
pub mod Tags
mod Examples
use opencensus_go.Tag.{Key, Map}
use opencensus_go.Tag.Mutators.{value}
use opencensus_go.TagEncoding.{Values, write_value, write_all, read_value, bytes}
use opencensus_go.Prelude.{
  ℕ, ◌+◌, Bytes, bytes_eq, List, [], ◌∷◌, Option, none, some, map, length, lookup, insert,
  replicate, sort_by, if◌then◌else◌,
}

pub record Aggregator (D F : Type 0) : Type 0 where
  pub new_data : ℕ → D
  pub add_sample : D → F → ℕ → D

pub record TagValue : Type 0 where
  pub key : Key
  pub value : Bytes

-- `collector`; its aggregation is the argument of the functions.
abbrev pub Signatures : Type 0 → Type 0
Signatures D = List (Bytes × D)

pub record Row (D : Type 0) : Type 0 where
  pub tags : List TagValue
  pub data_of : D

module _ {D F : Type 0} (agg : Aggregator D F) where
  unfoldable pub add_sample : Signatures D → Bytes → F → ℕ → Signatures D
  add_sample signatures s v t = elim (lookup s signatures) [
    | none ↦ insert s (agg.add_sample (agg.new_data t) v t) signatures
    | some aggregator ↦ insert s (agg.add_sample aggregator v t) signatures
  ]

required : Map → List Key → ℕ
unfolding value
required m [] = 0
required m (k ∷ keys) = length (value m k).0 + 1 + required m keys

pub values_of : Map → List Key → List Bytes
unfolding value
values_of m [] = []
values_of m (k ∷ keys) = (value m k).0 ∷ values_of m keys

unfoldable pub encode_with_keys : Map → List Key → Bytes
unfolding required values_of write_all bytes
encode_with_keys m keys =
    let vb : Values = record {
      buffer = replicate (required m keys) 0;
      write_index = 0;
      read_index = 0;
    } in
    bytes (write_all vb (values_of m keys))

-- The loop of `decodeTags`; `none` is a panic of `ReadValue`.
read_tags : Values → List Key → Option (List TagValue)
unfolding read_value
read_tags vb [] = some []
read_tags vb (k ∷ keys) = elim (read_value vb) [
  | none ↦ none
  | some (v, vb') ↦ elim (read_tags vb' keys) [
    | none ↦ none
    | some tags ↦ elim v [
      | none ↦ some tags
      | some text ↦ some (record { key = k; value = text } ∷ tags)
    ]
  ]
]

unfoldable pub sort_tags : List TagValue → List TagValue
unfolding sort_by
sort_tags tags = sort_by (λ (t : TagValue). t.key) tags

unfoldable pub decode_tags : Bytes → List Key → Option (List TagValue)
unfolding read_tags sort_tags
decode_tags buf keys =
    elim (read_tags (record { buffer = buf; write_index = 0; read_index = 0 }) keys) [
      | none ↦ none
      | some tags ↦ some (sort_tags tags)
    ]

-- A clone of the data is the data itself.
unfoldable pub collected_rows : {D : Type 0} → Signatures D → List Key → Option (List (Row D))
unfolding decode_tags
collected_rows [] keys = some []
collected_rows ((sig, aggregator) ∷ signatures) keys = elim (decode_tags sig keys) [
  | none ↦ none
  | some tags ↦ elim (collected_rows signatures keys) [
    | none ↦ none
    | some rows ↦ some (record { tags = tags; data_of = aggregator } ∷ rows)
  ]
]
