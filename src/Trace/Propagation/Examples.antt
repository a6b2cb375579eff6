-- ===== src/Trace/Propagation/Examples.antt =====
-- The binary form of a concrete span context.
use opencensus_go.Trace.{SpanContext}
use opencensus_go.Trace.Propagation.{is_zero, binary, from_binary}
use opencensus_go.Trace.Propagation.Laws.{from_binary-binary, from_binary-some_iff}
use opencensus_go.Prelude.{Bytes, ◌∷◌, replicate, none, some, ◌≡◌, ◌↔◌, ◌≤◌, refl, length}

abbrev context : SpanContext
context = record {
  trace_id = replicate 16 7;
  span_id = replicate 8 9;
  trace_options = 257;
  tracestate = none;
}

from_binary-binary_example :
    (b : Bytes) × (binary context ≡ some b)
    × (length b ≡ 29)
    × (from_binary b ≡ some (record context { trace_options = 1; tracestate = none }))
unfolding is_zero
from_binary-binary_example = from_binary-binary context refl refl refl

-- A text without a span identifier and options.
abbrev short : Bytes
short = 0 ∷ 0 ∷ replicate 16 7

from_binary-some_iff_example :
    ((sc : SpanContext) × (from_binary short ≡ some sc))
    ↔ ((rest : Bytes) × (16 ≤ length rest) × (short ≡ 0 ∷ 0 ∷ rest))
from_binary-some_iff_example = from_binary-some_iff short
