-- ===== src/Trace/Ids.antt =====
-- trace/trace.go: the generator of identifiers. The random numbers are arguments.
pub mod Filled
mod Examples
use opencensus_go.Prelude.{
  ℕ, zero, suc, ◌+◌, ◌-◌, ◌/◌, ◌%◌, ◌^◌, Bytes, nat_eq, ◌==◌, List, [], ◌∷◌, ◌++◌, Option, none,
  some, if◌then◌else◌,
}

pub record Generator : Type 0 where
  pub next_span_id : ℕ
  pub span_id_inc : ℕ
  pub trace_id_add : ℕ × ℕ

-- `init`; `inc | 1` makes the step odd.
unfoldable pub init : ℕ → ℕ → ℕ × ℕ → Generator
init next inc add = record {
  next_span_id = next;
  span_id_inc = inc + (1 - inc % 2);
  trace_id_add = add;
}

-- `binary.LittleEndian.PutUint64`, for a number of bytes.
unfoldable pub little_endian : ℕ → ℕ → Bytes
little_endian zero n = []
little_endian (suc k) n = n % 256 ∷ little_endian k (n / 256)

-- The loop, with fuel for its rounds: `none` says that it was not enough.
unfoldable pub next_id : ℕ → ℕ → ℕ → Option ℕ
next_id zero next inc = none
next_id (suc fuel) next inc =
    let id = (next + inc) % 2 ^ 64 in
    let rest = next_id fuel id inc in if id == 0 then rest else some id

unfoldable pub new_span_id : ℕ → Generator → Option (Bytes × Generator)
unfolding next_id little_endian
new_span_id fuel gen = elim (next_id fuel gen.next_span_id gen.span_id_inc) [
  | none ↦ none
  | some id ↦ some (little_endian 8 id, record gen { next_span_id = id })
]

-- So many calls of `NewSpanID`, the first identifier first.
unfoldable pub new_span_ids : ℕ → ℕ → Generator → Option (List Bytes × Generator)
unfolding new_span_id
new_span_ids fuel zero gen = some ([], gen)
new_span_ids fuel (suc calls) gen = elim (new_span_id fuel gen) [
  | none ↦ none
  | some (id, gen') ↦ elim (new_span_ids fuel calls gen') [
    | none ↦ none
    | some (ids, last) ↦ some (id ∷ ids, last)
  ]
]

-- With the two random numbers of `traceIDRand`.
unfoldable pub new_trace_id : ℕ → ℕ → Generator → Bytes
unfolding little_endian
new_trace_id r0 r1 gen =
    little_endian 8 ((r0 + gen.trace_id_add.0) % 2 ^ 64)
    ++ little_endian 8 ((r1 + gen.trace_id_add.1) % 2 ^ 64)
