-- ===== src/Stats/Collector/Examples.antt =====
-- The signature of a tag map with one of two keys.
use opencensus_go.Tag.{Key, Map, ttl_no_propagation}
use opencensus_go.Tag.Mutators.{value}
use opencensus_go.Stats.Collector.{TagValue, values_of, encode_with_keys, decode_tags, sort_tags}
use opencensus_go.Stats.Collector.Tags.{tags_of, decode_tags-encode_with_keys}
use mathlib.Core.List.{Perm}
use opencensus_go.Prelude.Sorted.{IsSortedBy}
use opencensus_go.Prelude.{◌≡◌, List, [], ◌∷◌, some, arith}

abbrev tags : Map
tags = ((0x6b ∷ []), record { value = 0x76 ∷ []; m = record { ttl = ttl_no_propagation } }) ∷ []

abbrev keys : List Key
keys = (0x61 ∷ []) ∷ (0x6b ∷ []) ∷ []

decode_tags-encode_with_keys_example :
    (read : List TagValue) × (decode_tags (encode_with_keys tags keys) keys ≡ some read)
    × (read ≡ sort_tags (tags_of tags keys))
    × Perm read (tags_of tags keys)
    × IsSortedBy (λ (t : TagValue). t.key) read
unfolding value values_of
decode_tags-encode_with_keys_example =
    decode_tags-encode_with_keys tags keys (omega arith, (omega arith, tt))
