-- ===== src/Http/TraceContext/RoundTrip.antt =====
-- A span context read back from the headers.
use opencensus_go.Http.Hex.{encode}
use opencensus_go.Http.Hex.RoundTrip.{IsByte, decode-encode, length-encode, encode_no_dash}
use opencensus_go.Http.TraceContext.{
  split, join, traceparent, entry_text, tracestate_from_header, tracestate_to_header, read_sections,
  version_fits, span_context_from_headers, span_context_to_headers,
}
use opencensus_go.Http.TraceContext.Texts.{split_first, split_none}
use opencensus_go.Http.TraceContext.States.{tracestate_from_header-to_header}
use opencensus_go.Trace.{Entry, Tracestate, SpanContext}
use opencensus_go.Trace.TracestateEntries.{entries_of}
use opencensus_go.Trace.TracestateEntries.Laws.{IsValid}
use opencensus_go.Prelude.{
  ◌%◌, ◌≡◌, ◌≤◌, refl, ap, ◌∙◌, Bytes, nat_eq, bytes_eq, ◌==◌, List, [], ◌∷◌, map, true, false,
  Option, none, some, length, replicate, All, arith,
}

-- A tracestate that the headers carry: nil, or well formed with a header of at most 512 bytes.
abbrev pub IsCarried : Option Tracestate → Type 0
IsCarried none = Unit {0}
IsCarried (some ts) = elim ts.entries [
  | [] ↦ Unit {0}
  | e ∷ es ↦ IsValid (e ∷ es) × (length (join 0x2c (map entry_text (e ∷ es))) ≤ 512)
]

-- What comes back of it: one without entries has no header and comes back nil.
abbrev pub received : Option Tracestate → Option Tracestate
received none = none
received (some ts) = elim ts.entries [ [] ↦ none | e ∷ es ↦ some ts ]

-- Identifiers of their sizes, not zero, and a tracestate that the headers carry.
pub record IsSendable (sc : SpanContext) : Type 0 where
  pub trace_size : length sc.trace_id ≡ 16
  pub span_size : length sc.span_id ≡ 8
  pub trace_bytes : All IsByte sc.trace_id
  pub span_bytes : All IsByte sc.span_id
  pub trace_filled : (sc.trace_id == replicate 16 0) ≡ false
  pub span_filled : (sc.span_id == replicate 8 0) ≡ false
  pub carried : IsCarried sc.tracestate

state_of :
    (sc : SpanContext) (entries : List Entry)
    → sc.tracestate ≡ some (record { entries = entries })
    → IsCarried (some (record { entries = entries }))
    → tracestate_from_header (tracestate_to_header sc)
      ≡ received (some (record { entries = entries }))
unfolding tracestate_from_header tracestate_to_header entries_of join
state_of sc [] e h = rw e refl
state_of sc (x ∷ xs) e h = tracestate_from_header-to_header sc x xs e h.0 h.1 ∙ e

state_back :
    (sc : SpanContext) (ts : Option Tracestate)
    → sc.tracestate ≡ ts
    → IsCarried ts
    → tracestate_from_header (tracestate_to_header sc) ≡ received ts
unfolding tracestate_from_header tracestate_to_header entries_of join
state_back sc none e h = rw e refl
state_back sc (some ts) e h = state_of sc ts.entries e h

sections :
    (sc : SpanContext)
    → IsSendable sc
    → split 0x2d (traceparent sc)
      ≡ encode (0 ∷ [])
        ∷ (encode sc.trace_id ∷ (encode sc.span_id ∷ (encode (sc.trace_options % 256 ∷ []) ∷ [])))
unfolding traceparent
sections sc h =
    let opts = encode (sc.trace_options % 256 ∷ []) in
    let small : IsByte (sc.trace_options % 256) = omega arith in
    split_first 0x2d (encode (0 ∷ [])) _ (encode_no_dash (0 ∷ []) (omega arith, tt))
    ∙ ap (λ (ps : List Bytes). encode (0 ∷ []) ∷ ps)
        (split_first 0x2d (encode sc.trace_id) _ (encode_no_dash sc.trace_id h.trace_bytes)
          ∙ ap (λ (ps : List Bytes). encode sc.trace_id ∷ ps)
              (split_first 0x2d (encode sc.span_id) opts (encode_no_dash sc.span_id h.span_bytes)
                ∙ ap (λ (ps : List Bytes). encode sc.span_id ∷ ps)
                    (split_none 0x2d opts
                      (encode_no_dash (sc.trace_options % 256 ∷ []) (small, tt)))))

read_back :
    (sc : SpanContext)
    → IsSendable sc
    → read_sections (encode sc.trace_id) (encode sc.span_id) (encode (sc.trace_options % 256 ∷ []))
      ≡ some (record sc { trace_options = sc.trace_options % 256; tracestate = none })
unfolding read_sections
read_back sc h =
    let small : IsByte (sc.trace_options % 256) = omega arith in
    let long : (length (encode sc.trace_id) == 32) ≡ true =
      let size = length-encode sc.trace_id in let n = h.trace_size in ground arith in
    let short : (length (encode sc.span_id) == 16) ≡ true =
      let size = length-encode sc.span_id in let n = h.span_size in ground arith in
    rw
      (
        read_sections,
        long,
        short,
        decode-encode sc.trace_id h.trace_bytes,
        decode-encode sc.span_id h.span_bytes,
        decode-encode (sc.trace_options % 256 ∷ []) (small, tt),
      )
      refl

-- Four sections of version 0 with identifiers that are not zero.
accepted :
    (tp ts v tid sid opts : Bytes) (sc : SpanContext)
    → split 0x2d tp ≡ v ∷ (tid ∷ (sid ∷ (opts ∷ [])))
    → read_sections tid sid opts ≡ some sc
    → version_fits v 4 ≡ true
    → (sc.trace_id == replicate (length sc.trace_id) 0) ≡ false
    → (sc.span_id == replicate (length sc.span_id) 0) ≡ false
    → span_context_from_headers tp ts ≡ some (record sc { tracestate = tracestate_from_header ts })
unfolding span_context_from_headers
accepted tp ts v tid sid opts sc cut read fits trace_ok span_ok =
    rw (span_context_from_headers, cut, read, fits, trace_ok, span_ok) refl

-- A span context with identifiers that are not zero, and a tracestate that is nil or well formed
-- and short enough, comes back from its headers with the lowest byte of its options and the same
-- tracestate, but a tracestate without entries comes back nil.
pub span_context_from_headers-to_headers :
    (sc : SpanContext)
    → IsSendable sc
    → let (tp, ts) = span_context_to_headers sc in
      span_context_from_headers tp ts
      ≡ some (record sc {
        trace_options = sc.trace_options % 256;
        tracestate = received sc.tracestate;
      })
unfolding span_context_to_headers version_fits
span_context_from_headers-to_headers sc h =
    let trace_ok : (sc.trace_id == replicate (length sc.trace_id) 0) ≡ false =
      rw h.trace_size h.trace_filled in
    let span_ok : (sc.span_id == replicate (length sc.span_id) 0) ≡ false =
      rw h.span_size h.span_filled in
    accepted (traceparent sc) (tracestate_to_header sc) _ _ _ _ _ (sections sc h) (read_back sc h)
      refl trace_ok span_ok
    ∙ ap
        (λ (ts : Option Tracestate).
          some (record sc { trace_options = sc.trace_options % 256; tracestate = ts }))
        (state_back sc sc.tracestate refl h.carried)
