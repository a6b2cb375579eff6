-- ===== src/Http/B3.antt =====
-- plugin/ochttp/propagation/b3/b3.go: the B3 headers of a span context.
pub mod RoundTrip
use opencensus_go.Http.{Header, get, set_header}
use opencensus_go.Http.Hex.{encode, decode}
use opencensus_go.Trace.{SpanContext, is_sampled}
use opencensus_go.Prelude.{
  ℕ, ◌-◌, Bytes, bytes_eq, nat_eq, ◌==◌, List, [], ◌∷◌, ◌++◌, Bool, true, false, ◌||◌, Option, none,
  some, leb, length, replicate, if◌then◌else◌,
}

-- "X-B3-Traceid", "X-B3-Spanid" and "X-B3-Sampled", the canonical forms of the names.
abbrev pub trace_id_header : Bytes
trace_id_header =
    0x58 ∷ 0x2d ∷ 0x42 ∷ 0x33 ∷ 0x2d ∷ 0x54 ∷ 0x72 ∷ 0x61 ∷ 0x63 ∷ 0x65 ∷ 0x69 ∷ 0x64 ∷ []

abbrev pub span_id_header : Bytes
span_id_header = 0x58 ∷ 0x2d ∷ 0x42 ∷ 0x33 ∷ 0x2d ∷ 0x53 ∷ 0x70 ∷ 0x61 ∷ 0x6e ∷ 0x69 ∷ 0x64 ∷ []

abbrev pub sampled_header : Bytes
sampled_header =
    0x58 ∷ 0x2d ∷ 0x42 ∷ 0x33 ∷ 0x2d ∷ 0x53 ∷ 0x61 ∷ 0x6d ∷ 0x70 ∷ 0x6c ∷ 0x65 ∷ 0x64 ∷ []

-- An identifier of a size, with zeros in front. The trace identifiers of 8 bytes and of 16 bytes
-- need no distinction: `8 + (8 - len(b))` is `16 - len(b)`.
unfoldable pub parse_id : ℕ → Bytes → Option Bytes
unfolding decode
parse_id size [] = none
parse_id size (c ∷ cs) = elim (decode (c ∷ cs)) [
  | none ↦ none
  | some b ↦ if leb (length b) size then some (replicate (size - length b) 0 ++ b) else none
]

unfoldable pub parse_trace_id : Bytes → Option Bytes
unfolding parse_id
parse_trace_id tid = parse_id 16 tid

unfoldable pub parse_span_id : Bytes → Option Bytes
unfolding parse_id
parse_span_id sid = parse_id 8 sid

-- "true" and "1".
unfoldable pub parse_sampled : Bytes → ℕ × Bool
parse_sampled sampled =
    if sampled == (0x74 ∷ 0x72 ∷ 0x75 ∷ 0x65 ∷ []) || sampled == (0x31 ∷ [])
    then (1, true)
    else (0, false)

unfoldable pub span_context_from_request : Header → Option SpanContext
unfolding parse_trace_id parse_span_id parse_sampled
span_context_from_request header = elim (parse_trace_id (get header trace_id_header)) [
  | none ↦ none
  | some tid ↦ elim (parse_span_id (get header span_id_header)) [
    | none ↦ none
    | some sid ↦ some (record {
      trace_id = tid;
      span_id = sid;
      trace_options = (parse_sampled (get header sampled_header)).0;
      tracestate = none;
    })
  ]
]

unfoldable pub span_context_to_request : SpanContext → Header → Header
unfolding encode
span_context_to_request sc header =
    let traced = set_header header trace_id_header (encode sc.trace_id) in
    let spanned = set_header traced span_id_header (encode sc.span_id) in
    set_header spanned sampled_header (if is_sampled sc then 0x31 ∷ [] else 0x30 ∷ [])
