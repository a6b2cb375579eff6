-- ===== src/Trace/Propagation.antt =====
-- trace/propagation/propagation.go: the binary format of a span context.
pub mod Laws
mod Examples
use opencensus_go.Trace.{SpanContext}
use opencensus_go.Prelude.{
  ℕ, zero, suc, ◌%◌, Bytes, bytes_eq, nat_eq, ◌==◌, List, [], ◌∷◌, ◌++◌, Bool, true, false, ◌&&◌,
  Option, none, some, leb, length, take, drop, replicate, if◌then◌else◌,
}

is_nil : {A : Type 0} → Option A → Bool
is_nil none = true
is_nil (some a) = false

-- `sc == (trace.SpanContext{})`
unfoldable pub is_zero : SpanContext → Bool
unfolding is_nil
is_zero sc =
    sc.trace_id == replicate 16 0
    && sc.span_id == replicate 8 0
    && sc.trace_options == 0
    && is_nil sc.tracestate

-- The three fields behind the version, each after its number. `none` is nil.
unfoldable pub binary : SpanContext → Option Bytes
unfolding is_zero
binary sc =
    if is_zero sc
    then none
    else some (0 ∷ 0 ∷ (sc.trace_id ++ (1 ∷ (sc.span_id ++ (2 ∷ sc.trace_options % 256 ∷ [])))))

-- `len(b) >= n && b[0] == id`
has_field : ℕ → ℕ → Bytes → Bool
has_field n id [] = false
has_field n id (c ∷ b) = leb n (length (c ∷ b)) && c == id

read_options : Bytes → ℕ
read_options (id ∷ options ∷ b) = if id == 2 then options else 0
read_options b = 0

-- The fields after the trace identifier; a missing one is zero.
read_optional : Bytes → Bytes → SpanContext
unfolding has_field read_options
read_optional trace_id b =
    if has_field 9 1 b
    then record {
      trace_id = trace_id;
      span_id = take 8 (drop 1 b);
      trace_options = read_options (drop 9 b);
      tracestate = none;
    }
    else record {
      trace_id = trace_id;
      span_id = replicate 8 0;
      trace_options = read_options b;
      tracestate = none;
    }

-- `none` is a result that is not ok.
unfoldable pub from_binary : Bytes → Option SpanContext
unfolding has_field read_optional
from_binary [] = none
from_binary (version ∷ b) =
    if version == 0 && has_field 17 0 b
    then some (read_optional (take 16 (drop 1 b)) (drop 17 b))
    else none
