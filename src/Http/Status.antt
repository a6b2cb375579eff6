-- ===== src/Http/Status.antt =====
-- plugin/ochttp/trace.go: the status of a span for the status code of a response.
use opencensus_go.Trace.{Status}
use opencensus_go.Trace.Codes.{status_names}
use opencensus_go.Prelude.{
  ℕ, Bytes, bytes_eq, nat_eq, ◌==◌, pos, List, [], ◌∷◌, Bool, ◌||◌, Option, none, some, ltb, leb,
  get_elem?, lookup, if◌then◌else◌,
}

-- The codes with a case of their own, and the status codes of the cases.
abbrev status_cases : List (ℕ × ℕ)
status_cases =
    (499, 1)
    ∷ (400, 3)
    ∷ (422, 3)
    ∷ (504, 4)
    ∷ (404, 5)
    ∷ (403, 7)
    ∷ (401, 16)
    ∷ (429, 8)
    ∷ (501, 12)
    ∷ (503, 14)
    ∷ (200, 0)
    ∷ (409, 6)
    ∷ []

unfoldable pub status_code_of : ℕ → ℕ
status_code_of http_status_code = elim (lookup http_status_code status_cases) [
  | some code ↦ code
  | none ↦ if ltb http_status_code 200 || leb 400 http_status_code then 2 else 0
]

abbrev message_of : Option Bytes → Bytes
message_of none = []
message_of (some name) = name

unfoldable pub trace_status : ℕ → Status
unfolding status_code_of
trace_status http_status_code =
    let code = status_code_of http_status_code in
    record { code = pos code; message = message_of (get_elem? status_names code) }

-- "/healthz" and "/_ah/health".
unfoldable pub is_health_endpoint : Bytes → Bool
is_health_endpoint path =
    path == (0x2f ∷ 0x68 ∷ 0x65 ∷ 0x61 ∷ 0x6c ∷ 0x74 ∷ 0x68 ∷ 0x7a ∷ [])
    || path == (0x2f ∷ 0x5f ∷ 0x61 ∷ 0x68 ∷ 0x2f ∷ 0x68 ∷ 0x65 ∷ 0x61 ∷ 0x6c ∷ 0x74 ∷ 0x68 ∷ [])
