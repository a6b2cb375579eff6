-- ===== src/Http.antt =====
-- plugin/ochttp/propagation: span contexts in the headers of HTTP requests. The headers are those
-- of a request, by their canonical names, each with its values.
pub mod Hex
pub mod TraceContext
pub mod B3
pub mod Status
pub mod Tracker
mod Examples
use opencensus_go.Prelude.{Bytes, bytes_eq, List, [], ◌∷◌, Option, none, some, lookup, insert}

abbrev pub Header : Type 0
Header = List (Bytes × List Bytes)

-- `req.Header[name]`, where a missing name has no values.
abbrev pub values : Header → Bytes → List Bytes
values header name = elim (lookup name header) [ none ↦ [] | some vs ↦ vs ]

-- `req.Header.Get(name)`, the first value or nothing.
abbrev pub get : Header → Bytes → Bytes
get header name = elim (values header name) [ [] ↦ [] | v ∷ vs ↦ v ]

-- `req.Header.Set(name, value)`
abbrev pub set_header : Header → Bytes → Bytes → Header
set_header header name value = insert name (value ∷ []) header
