-- ===== src/Http/B3/RoundTrip.antt =====
-- A span context read back from the B3 headers of a request.
use opencensus_go.Http.{Header, get, values, set_header}
use opencensus_go.Http.Hex.{encode, decode}
use opencensus_go.Http.Hex.RoundTrip.{IsByte, decode-encode, length-encode}
use opencensus_go.Http.B3.{
  trace_id_header, span_id_header, sampled_header, parse_id, parse_trace_id, parse_span_id,
  parse_sampled, span_context_from_request, span_context_to_request,
}
use opencensus_go.Trace.{SpanContext, is_sampled}
use opencensus_go.Prelude.{
  ℕ, ◌-◌, ◌≡◌, ◌≢◌, ◌≤◌, refl, ap, ◌∙◌, Bytes, bytes_eq, nat_eq, ◌==◌, [], ◌∷◌, true, none, some,
  leb, length, lookup-insert, All, if◌then◌else◌, Bool-cases, inl, inr, arith,
}

-- A header that was set, under its own name and under another one.
get-set_header :
    (header : Header) (name other : Bytes) (value : Bytes)
    → get (set_header header name value) other ≡ (if name == other then value else get header other)
get-set_header header name other value = elim (Bool-cases (name == other)) [
  | inl e ↦ rw (get, values, lookup-insert name other (value ∷ []) header, e) refl
  | inr e ↦ rw (get, values, lookup-insert name other (value ∷ []) header, e) refl
]

parsed :
    (size : ℕ) (id text : Bytes)
    → length id ≡ size
    → text ≢ []
    → decode text ≡ some id
    → parse_id size text ≡ some id
unfolding parse_id
parsed size id [] n filled e = absurd (filled refl)
parsed size id (c ∷ cs) n filled e =
    let fits : leb (length id) size ≡ true = ground arith in
    let no_zeros : size - length id ≡ 0 = omega (arith, n) in rw (parse_id, e, fits, no_zeros) refl

parse_id-encode :
    (size : ℕ) (id : Bytes)
    → length id ≡ size
    → 1 ≤ size
    → All IsByte id
    → parse_id size (encode id) ≡ some id
parse_id-encode size id n filled h =
    let text : encode id ≢ [] = λ e.
      let none_long = ap (λ (bs : Bytes). length bs) e in
      omega (arith, none_long, length-encode id, n, filled) in
    parsed size id (encode id) n text (decode-encode id h)

module _ (sc : SpanContext) (header : Header) where
  abbrev sampled_text : Bytes
  sampled_text = if is_sampled sc then 0x31 ∷ [] else 0x30 ∷ []

  abbrev sent : Header
  sent = span_context_to_request sc header

  sent_trace_id : get sent trace_id_header ≡ encode sc.trace_id
  unfolding span_context_to_request
  sent_trace_id =
      let traced = set_header header trace_id_header (encode sc.trace_id) in
      let spanned = set_header traced span_id_header (encode sc.span_id) in
      get-set_header spanned sampled_header trace_id_header sampled_text
      ∙ get-set_header traced span_id_header trace_id_header (encode sc.span_id)
      ∙ get-set_header header trace_id_header trace_id_header (encode sc.trace_id)

  sent_span_id : get sent span_id_header ≡ encode sc.span_id
  unfolding span_context_to_request
  sent_span_id =
      let traced = set_header header trace_id_header (encode sc.trace_id) in
      let spanned = set_header traced span_id_header (encode sc.span_id) in
      get-set_header spanned sampled_header span_id_header sampled_text
      ∙ get-set_header traced span_id_header span_id_header (encode sc.span_id)

  sent_sampled : get sent sampled_header ≡ sampled_text
  unfolding span_context_to_request
  sent_sampled =
      let traced = set_header header trace_id_header (encode sc.trace_id) in
      let spanned = set_header traced span_id_header (encode sc.span_id) in
      get-set_header spanned sampled_header sampled_header sampled_text

  sampled_back : (parse_sampled sampled_text).0 ≡ (if is_sampled sc then 1 else 0)
  unfolding parse_sampled
  sampled_back = elim (Bool-cases (is_sampled sc)) [ inl e ↦ rw e refl | inr e ↦ rw e refl ]

  -- A span context of full identifiers, zero or not, comes back from the B3 headers that it is
  -- written to, whatever headers the request had; of its options only the sampling bit comes back,
  -- and of its tracestate nothing.
  pub span_context_from_request-to_request :
      length sc.trace_id ≡ 16
      → length sc.span_id ≡ 8
      → All IsByte sc.trace_id
      → All IsByte sc.span_id
      → span_context_from_request (span_context_to_request sc header)
        ≡ some (record sc { trace_options = if is_sampled sc then 1 else 0; tracestate = none })
  unfolding span_context_from_request parse_trace_id parse_span_id
  span_context_from_request-to_request t s tb sb =
      rw
        (
          span_context_from_request,
          sent_trace_id,
          parse_id-encode 16 sc.trace_id t (omega arith) tb,
          sent_span_id,
          parse_id-encode 8 sc.span_id s (omega arith) sb,
          sent_sampled,
          sampled_back,
        )
        refl
