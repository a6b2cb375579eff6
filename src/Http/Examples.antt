-- ===== src/Http/Examples.antt =====
-- Runs of the propagation in headers.
use opencensus_go.Http.{Header}
use opencensus_go.Http.B3
use opencensus_go.Http.B3.RoundTrip.{span_context_from_request-to_request}
use opencensus_go.Http.TraceContext.{
  span_context_from_headers, span_context_to_headers, entry_text, join,
}
use opencensus_go.Http.TraceContext.RoundTrip.{IsSendable, span_context_from_headers-to_headers}
use opencensus_go.Trace.{SpanContext, Entry}
use opencensus_go.Trace.TracestateEntries.{is_valid, is_valid_key, is_valid_value}
use opencensus_go.Trace.TracestateEntries.Laws.{IsValid}
use opencensus_go.Prelude.{◌≡◌, ◌≤◌, refl, [], ◌∷◌, some, none, replicate, length, map, arith}

-- The entry `a=b`.
abbrev entry : Entry
entry = record { key = 0x61 ∷ []; value = 0x62 ∷ [] }

abbrev context : SpanContext
context = record {
  trace_id = 0xab ∷ replicate 15 7;
  span_id = 0 ∷ replicate 7 9;
  trace_options = 1;
  tracestate = some (record { entries = entry ∷ [] });
}

entry-IsValid : IsValid (entry ∷ [])
unfolding is_valid is_valid_key is_valid_value
entry-IsValid = record { valid = (refl, tt); distinct = (refl, tt); limit = omega arith }

short : length (join 0x2c (map entry_text (entry ∷ []))) ≤ 512
unfolding join
short = omega arith

context-IsSendable : IsSendable context
context-IsSendable = record {
  trace_size = refl;
  span_size = refl;
  trace_bytes = ground arith;
  span_bytes = ground arith;
  trace_filled = refl;
  span_filled = refl;
  carried = (entry-IsValid, short);
}

span_context_from_headers-to_headers_example :
    let (tp, ts) = span_context_to_headers context in
    span_context_from_headers tp ts ≡ some (record context { trace_options = 1 })
span_context_from_headers-to_headers_example =
    span_context_from_headers-to_headers context context-IsSendable

-- A request with one header.
abbrev header : Header
header = (0x41 ∷ [], (0x42 ∷ []) ∷ []) ∷ []

span_context_from_request-to_request_example :
    B3.span_context_from_request (B3.span_context_to_request context header)
    ≡ some (record context { trace_options = 1; tracestate = none })
span_context_from_request-to_request_example =
    span_context_from_request-to_request context header refl refl context-IsSendable.trace_bytes
      context-IsSendable.span_bytes
