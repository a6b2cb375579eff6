-- ===== src/Metric/Manager.antt =====
-- metric/metricproducer/manager.go: the set of the producers, each known by a number; `none` is a
-- nil producer.
use opencensus_go.Prelude.{ℕ, nat_eq, List, map, Option, none, some, insert, erase}

abbrev pub Manager : Type 0
Manager = List (ℕ × Unit {0})

unfoldable pub add_producer : Manager → Option ℕ → Manager
add_producer pm none = pm
add_producer pm (some producer) = insert producer tt pm

unfoldable pub delete_producer : Manager → Option ℕ → Manager
delete_producer pm none = pm
delete_producer pm (some producer) = erase producer pm

unfoldable pub get_all : Manager → List ℕ
get_all pm = map (λ (e : ℕ × Unit {0}). e.0) pm
