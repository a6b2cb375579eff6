-- ===== src/Trace/Ids/Examples.antt =====
-- A generator whose first sum is zero.
use opencensus_go.Trace.Ids.{Generator, init, new_span_ids}
use opencensus_go.Trace.Ids.Filled.{IsFilled, new_span_ids-init}
use opencensus_go.Prelude.{◌^◌, ◌-◌, ◌≡◌, List, Bytes, some, length, All}

new_span_ids-init_example :
    (ids : List Bytes) × (gen : Generator) × (new_span_ids 2 3 (init (2 ^ 64 - 5) 4 (0, 0))
      ≡ some (ids, gen))
    × (length ids ≡ 3)
    × All IsFilled ids
new_span_ids-init_example = new_span_ids-init 3 (2 ^ 64 - 5) 4 (0, 0)
