-- ===== src/Trace/Exporters.antt =====
-- trace/export.go: the set of the exporters, each known by a number. Each change makes a new set.
use opencensus_go.Prelude.{ℕ, nat_eq, List, insert, erase}

abbrev pub ExportersMap : Type 0
ExportersMap = List (ℕ × Unit {0})

unfoldable pub register_exporter : ExportersMap → ℕ → ExportersMap
register_exporter old e = insert e tt old

unfoldable pub unregister_exporter : ExportersMap → ℕ → ExportersMap
unregister_exporter old e = erase e old
