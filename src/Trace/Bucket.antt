-- ===== src/Trace/Bucket.antt =====
-- trace/spanbucket.go: a sample of finished spans in a circular buffer, and the latency ranges.
pub mod Laws
pub mod Resize
pub mod Latency
pub mod Kept
pub mod Packed
mod Examples
use opencensus_go.Trace.{SpanData}
use opencensus_go.Prelude.{
  ℕ, zero, suc, ◌+◌, ◌-◌, List, Bool, true, false, Option, none, some, ltb, ◌==◌, nat_eq, not,
  if◌then◌else◌, length, get_elem?, set, replicate,
}

-- A second in nanoseconds.
abbrev pub sample_period : ℕ
sample_period = 1_000_000_000

-- A nil pointer in the buffer is `none`.
pub record Bucket : Type 0 where
  pub next_time : ℕ
  pub buffer : List (Option SpanData)
  pub next_index : ℕ
  pub overflow : Bool

unfoldable pub make_bucket : ℕ → Bucket
make_bucket buffer_size = record {
  next_time = 0;
  buffer = replicate buffer_size none;
  next_index = 0;
  overflow = false;
}

-- The part of `add` behind its two guards.
store : Bucket → SpanData → Bucket
store b s =
    let buffer = set b.buffer b.next_index (some s) in
    let next_index = b.next_index + 1 in
    if next_index == length buffer
    then record {
      next_time = s.end_time + sample_period;
      buffer = buffer;
      next_index = 0;
      overflow = true;
    }
    else record b {
      next_time = s.end_time + sample_period;
      buffer = buffer;
      next_index = next_index;
    }

unfoldable pub add : Bucket → SpanData → Bucket
unfolding store
add b s = if ltb s.end_time b.next_time then b else if length b.buffer == 0 then b else store b s

unfoldable pub size : Bucket → ℕ
size b = if b.overflow then length b.buffer else b.next_index

-- The outer `none` is a panic: an index out of range.
unfoldable pub span : Bucket → ℕ → Option (Option SpanData)
span b i =
    if not b.overflow
    then get_elem? b.buffer i
    else if ltb i (length b.buffer - b.next_index)
    then get_elem? b.buffer (b.next_index + i)
    else get_elem? b.buffer (b.next_index + i - length b.buffer)

-- `for i := ...; newBuffer[i] = b.span(i + offset)` for the rounds that are left.
pub copy_spans : Bucket → ℕ → ℕ → ℕ → List (Option SpanData) → Option (List (Option SpanData))
unfolding span
copy_spans b zero i offset new_buffer = some new_buffer
copy_spans b (suc rounds) i offset new_buffer = elim (span b (i + offset)) [
  | none ↦ none
  | some s ↦ copy_spans b rounds (i + 1) offset (set new_buffer i s)
]

unfoldable pub resize : Bucket → ℕ → Option Bucket
unfolding copy_spans size
resize b n =
    let cur = size b in
    let new_buffer = replicate n none in
    if ltb cur n
    then elim (copy_spans b cur 0 0 new_buffer) [
      | none ↦ none
      | some buffer ↦ some (record b { buffer = buffer; next_index = cur; overflow = false })
    ]
    else elim (copy_spans b n 0 (cur - n) new_buffer) [
      | none ↦ none
      | some buffer ↦ some (record b { buffer = buffer; next_index = 0; overflow = true })
    ]
