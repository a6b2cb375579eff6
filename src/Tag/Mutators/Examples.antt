-- ===== src/Tag/Mutators/Examples.antt =====
-- The mutators at concrete maps.
use opencensus_go.Tag.{ok, TagContent, Map, ttl_unlimited_propagation}
use opencensus_go.Tag.Validate.{check_key_name, check_value}
use opencensus_go.Tag.Mutators.{Mutator, inserts, updates, upserts, deletes, mutate, new}
use opencensus_go.Tag.Mutators.Laws.{IsValid, after, lookup-mutate, new-IsValid}
use opencensus_go.Prelude.{◌≡◌, refl, List, [], ◌∷◌, some, Bytes, bytes_eq}

abbrev content : Bytes → TagContent
content v = record { value = v; m = record { ttl = ttl_unlimited_propagation } }

abbrev old : Map
old = (97 ∷ [], content (120 ∷ [])) ∷ []

-- Insert does not overwrite, Upsert does, and Update makes no new tag.
abbrev changes : List Mutator
changes =
    inserts (97 ∷ []) (122 ∷ []) []
    ∷ upserts (98 ∷ []) (122 ∷ []) []
    ∷ updates (99 ∷ []) (122 ∷ []) []
    ∷ []

abbrev result : Map
result = (97 ∷ [], content (120 ∷ [])) ∷ (98 ∷ [], content (122 ∷ [])) ∷ []

run_changes : new (some old) changes ≡ ok result
unfolding new check_key_name check_value
run_changes = refl

mutate_deletes : mutate (deletes (97 ∷ [])) old ≡ ok []
unfolding mutate
mutate_deletes = refl

new-IsValid_example : IsValid result
unfolding check_key_name
new-IsValid_example = new-IsValid (some old) changes result (refl, (refl, (refl, tt))) run_changes

upsert_old : mutate (upserts (97 ∷ []) (122 ∷ []) []) old ≡ ok ((97 ∷ [], content (122 ∷ [])) ∷ [])
unfolding mutate check_value
upsert_old = refl

lookup-mutate_example :
    some (content (122 ∷ []))
    ≡ after (upserts (97 ∷ []) (122 ∷ []) []) (97 ∷ []) (some (content (120 ∷ [])))
lookup-mutate_example =
    lookup-mutate (upserts (97 ∷ []) (122 ∷ []) []) old ((97 ∷ [], content (122 ∷ [])) ∷ [])
      (97 ∷ []) upsert_old
