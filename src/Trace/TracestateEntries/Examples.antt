-- ===== src/Trace/TracestateEntries/Examples.antt =====
-- Tracestates at concrete entries.
use opencensus_go.Trace.{Entry, Tracestate}
use opencensus_go.Trace.TracestateEntries.{ok, entries_of, new, is_valid, is_valid_key}
use opencensus_go.Trace.TracestateEntries.Laws.{IsValid, value_of, or_else, new-eq-ok, new_total}
use opencensus_go.Prelude.{◌≡◌, refl, [], ◌∷◌, some, true, false, Bytes, arith, List}

-- `foo` and `bar`, and the value `1`.
abbrev foo : Bytes
foo = 0x66 ∷ 0x6f ∷ 0x6f ∷ []

abbrev bar : Bytes
bar = 0x62 ∷ 0x61 ∷ 0x72 ∷ []

abbrev one : Bytes
one = 0x31 ∷ []

abbrev two : Bytes
two = 0x32 ∷ []

abbrev parent : Tracestate
parent = record {
  entries = record { key = foo; value = one } ∷ record { key = bar; value = one } ∷ [];
}

abbrev entries : List Entry
entries = record { key = bar; value = two } ∷ []

abbrev merged : Tracestate
merged = record {
  entries = record { key = bar; value = two } ∷ record { key = foo; value = one } ∷ [];
}

parent-IsValid : IsValid parent.entries
unfolding is_valid
parent-IsValid = record {
  valid = (refl, (refl, tt));
  distinct = (refl, (refl, tt));
  limit = omega arith;
}

entries-IsValid : IsValid entries
unfolding is_valid
entries-IsValid = record { valid = (refl, tt); distinct = (refl, tt); limit = omega arith }

run_new : new (some parent) entries ≡ ok (some merged)
unfolding new
run_new = refl

-- A key may name its vendor behind an at sign; a text of upper case is refused.
vendor_key : is_valid_key (0x74 ∷ 0x40 ∷ 0x76 ∷ []) ≡ true
unfolding is_valid_key
vendor_key = refl

upper_key : is_valid_key (0x41 ∷ []) ≡ false
unfolding is_valid_key
upper_key = refl

new-eq-ok_example :
    IsValid merged.entries
    × ((key : Bytes)
        → value_of key merged.entries
          ≡ or_else (value_of key entries) (value_of key parent.entries))
unfolding entries_of
new-eq-ok_example = new-eq-ok (some parent) entries (some merged) parent-IsValid run_new

new_total_example : (ts : Tracestate) × (new (some parent) entries ≡ ok (some ts))
new_total_example = new_total parent entries parent-IsValid entries-IsValid (omega arith)
