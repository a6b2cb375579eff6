-- ===== src/Http/TraceContext.antt =====
-- plugin/ochttp/propagation/tracecontext/propagation.go: the W3C headers of a span context.
pub mod Texts
pub mod States
pub mod RoundTrip
use opencensus_go.Http.{Header, values, set_header}
use opencensus_go.Http.Hex.{encode, decode}
use opencensus_go.Trace.{Entry, Tracestate, SpanContext}
use opencensus_go.Trace.TracestateEntries.{entries_of, new, Result, ok, err}
use opencensus_go.Trace.TracestateEntries
use opencensus_go.Prelude.{
  ℕ, ◌+◌, ◌-◌, ◌%◌, Bytes, bytes_eq, nat_eq, ◌==◌, List, [], ◌∷◌, ◌++◌, map, Bool, true, false, not,
  ◌||◌, ◌&&◌, Option, none, some, ltb, leb, length, replicate, if◌then◌else◌,
}

abbrev pub max_version : ℕ
max_version = 254

abbrev pub max_tracestate_len : ℕ
max_tracestate_len = 512

-- "Traceparent" and "Tracestate", the canonical forms of the names.
abbrev pub traceparent_header : Bytes
traceparent_header = 0x54 ∷ 0x72 ∷ 0x61 ∷ 0x63 ∷ 0x65 ∷ 0x70 ∷ 0x61 ∷ 0x72 ∷ 0x65 ∷ 0x6e ∷ 0x74 ∷ []

abbrev pub tracestate_header : Bytes
tracestate_header = 0x54 ∷ 0x72 ∷ 0x61 ∷ 0x63 ∷ 0x65 ∷ 0x73 ∷ 0x74 ∷ 0x61 ∷ 0x74 ∷ 0x65 ∷ []

-- A byte in front of the first of the parts.
abbrev push_byte : ℕ → List Bytes → List Bytes
push_byte c [] = (c ∷ []) ∷ []
push_byte c (part ∷ parts) = (c ∷ part) ∷ parts

-- `strings.Split` by one byte.
unfoldable pub split : ℕ → Bytes → List Bytes
split sep [] = [] ∷ []
split sep (c ∷ cs) = let rest = split sep cs in if c == sep then [] ∷ rest else push_byte c rest

-- `strings.Join` by one byte.
unfoldable pub join : ℕ → List Bytes → Bytes
join sep [] = []
join sep (part ∷ []) = part
join sep (part ∷ next ∷ parts) = part ++ (sep ∷ join sep (next ∷ parts))

-- [\x09\x20]
abbrev pub is_ows : ℕ → Bool
is_ows c = c == 0x09 || c == 0x20

unfoldable pub trim_left : Bytes → Bytes
trim_left [] = []
trim_left (c ∷ cs) = let rest = trim_left cs in if is_ows c then rest else c ∷ cs

unfoldable pub trim_right : Bytes → Bytes
trim_right [] = []
trim_right (c ∷ cs) = elim (trim_right cs) [
  | [] ↦ if is_ows c then [] else c ∷ []
  | d ∷ ds ↦ c ∷ (d ∷ ds)
]

-- No newline but in the last place: what `.*[^\x20\x09]` takes.
unfoldable pub one_line : Bytes → Bool
one_line [] = true
one_line (c ∷ []) = true
one_line (c ∷ d ∷ cs) = not (c == 0x0a) && one_line (d ∷ cs)

-- The first group of `^[\x09\x20]*(.*[^\x20\x09])[\x09\x20]*$`; `none` is no match.
unfoldable pub trim_ows : Bytes → Option Bytes
unfolding trim_left trim_right one_line
trim_ows s = elim (trim_right (trim_left s)) [
  | [] ↦ none
  | c ∷ cs ↦ if one_line (c ∷ cs) then some (c ∷ cs) else none
]

-- `ok` is false with an empty value if there is no value, or with several unless they are joined.
unfoldable pub get_request_header : Header → Bytes → Bool → Bytes × Bool
unfolding join
get_request_header header name comma_separated = elim (values header name) [
  | [] ↦ ([], false)
  | v ∷ [] ↦ (v, true)
  | v ∷ w ∷ vs ↦ (join 0x2c (v ∷ w ∷ vs), comma_separated)
]

abbrev pair_of : List Bytes → Option Entry
pair_of (key ∷ value ∷ []) = some (record { key = key; value = value })
pair_of _ = none

-- The loop over the pairs, with the length of the header so far; `none` is the return of nil.
unfoldable pub read_pairs : ℕ → List Bytes → Option (List Entry)
unfolding trim_ows split
read_pairs hdr_len [] = some []
read_pairs hdr_len (pair ∷ pairs) = elim (trim_ows pair) [
  | none ↦ none
  | some text ↦
      let len = hdr_len + length text in
      let rest = read_pairs len pairs in
      let found : Option (List Entry) = elim (pair_of (split 0x3d text)) [
        | none ↦ none
        | some entry ↦ elim rest [ none ↦ none | some entries ↦ some (entry ∷ entries) ]
      ] in
      if ltb max_tracestate_len len then none else found
]

abbrev parsed : Result → Option Tracestate
parsed (ok ts) = ts
parsed (err e) = none

unfoldable pub tracestate_from_header : Bytes → Option Tracestate
unfolding read_pairs split new
tracestate_from_header [] = none
tracestate_from_header (c ∷ cs) =
    let pairs = split 0x2c (c ∷ cs) in
    elim (read_pairs (length pairs - 1) pairs) [
      | none ↦ none
      | some entries ↦ parsed (new none entries)
    ]

abbrev pub entry_text : Entry → Bytes
entry_text e = e.key ++ (0x3d ∷ e.value)

unfoldable pub tracestate_to_header : SpanContext → Bytes
unfolding join entries_of
tracestate_to_header sc =
    let h = join 0x2c (map entry_text (entries_of sc.tracestate)) in
    if leb (length h) max_tracestate_len then h else []

-- The identifiers and the options of the sections behind the version.
unfoldable pub read_sections : Bytes → Bytes → Bytes → Option SpanContext
unfolding decode
read_sections tid_text sid_text opts_text =
    if length tid_text == 32 && length sid_text == 16
    then elim (decode tid_text) [
      | none ↦ none
      | some tid ↦ elim (decode sid_text) [
        | none ↦ none
        | some sid ↦ elim (decode opts_text) [
          | none ↦ none
          | some [] ↦ none
          | some (opts ∷ more) ↦
              some
                (record { trace_id = tid; span_id = sid; trace_options = opts; tracestate = none })
        ]
      ]
    ]
    else none

-- The first section, and whether the number of sections fits the version.
unfoldable pub version_fits : Bytes → ℕ → Bool
unfolding decode
version_fits text sections = elim (decode text) [
  | none ↦ false
  | some [] ↦ false
  | some (version ∷ more) ↦
      length text == 2 && leb version max_version && (not (version == 0) || sections == 4)
]

abbrev is_zero_id : Bytes → Bool
is_zero_id id = id == replicate (length id) 0

unfoldable pub span_context_from_headers : Bytes → Bytes → Option SpanContext
unfolding split read_sections version_fits tracestate_from_header
span_context_from_headers tp ts = elim (split 0x2d tp) [
  | v ∷ tid ∷ sid ∷ opts ∷ more ↦ elim (read_sections tid sid opts) [
    | none ↦ none
    | some sc ↦
        if version_fits v (4 + length more)
          && not (is_zero_id sc.trace_id)
          && not (is_zero_id sc.span_id)
        then some (record sc { tracestate = tracestate_from_header ts })
        else none
  ]
  | _ ↦ none
]

unfoldable pub span_context_from_request : Header → Option SpanContext
unfolding get_request_header span_context_from_headers
span_context_from_request header =
    span_context_from_headers (get_request_header header traceparent_header false).0
      (get_request_header header tracestate_header true).0

unfoldable pub traceparent : SpanContext → Bytes
unfolding encode
traceparent sc =
    encode (0 ∷ [])
    ++ (0x2d
        ∷ (encode sc.trace_id
            ++ (0x2d ∷ (encode sc.span_id ++ (0x2d ∷ encode (sc.trace_options % 256 ∷ []))))))

unfoldable pub span_context_to_headers : SpanContext → Bytes × Bytes
unfolding traceparent tracestate_to_header
span_context_to_headers sc = (traceparent sc, tracestate_to_header sc)

unfoldable pub span_context_to_request : SpanContext → Header → Header
unfolding span_context_to_headers
span_context_to_request sc header =
    let (tp, ts) = span_context_to_headers sc in
    let sent = set_header header traceparent_header tp in
    elim ts [ [] ↦ sent | c ∷ cs ↦ set_header sent tracestate_header (c ∷ cs) ]
