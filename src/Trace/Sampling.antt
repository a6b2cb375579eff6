-- ===== src/Trace/Sampling.antt =====
-- trace/sampling.go: the samplers.
use opencensus_go.Floats.{Floats}
use opencensus_go.Trace.{is_sampled}
use opencensus_go.Trace.Span.{Sampler}
use opencensus_go.Prelude.{
  ℕ, ◌+◌, ◌*◌, ◌/◌, Bytes, Bool, true, false, not, ◌||◌, [], ◌∷◌, take, ltb, if◌then◌else◌,
}

unfoldable pub always_sample : Sampler
always_sample p = true

unfoldable pub never_sample : Sampler
never_sample p = false

-- `binary.BigEndian.Uint64`, with the bytes in front as a number.
unfoldable pub big_endian : ℕ → Bytes → ℕ
big_endian n [] = n
big_endian n (b ∷ bs) = big_endian (n * 256 + b) bs

-- The sampler of a bound on the trace identifier.
unfoldable pub bounded : ℕ → Sampler
unfolding big_endian
bounded trace_id_upper_bound p =
    if is_sampled p.parent_context
    then true
    else ltb (big_endian 0 (take 8 p.trace_id) / 2) trace_id_upper_bound

module _ {F : Type 0} (floats : Floats F) where
  abbrev at_least : F → F → Bool
  at_least a b = floats.less b a || floats.equal a b

  -- A fraction that is not at least 0, as a NaN, is 0.
  unfoldable pub probability_sampler : F → Sampler
  unfolding always_sample bounded
  probability_sampler fraction =
      if not (at_least fraction floats.zero)
      then bounded (floats.to_uint (floats.mul floats.zero floats.two_to_63))
      else (if at_least fraction floats.one
          then always_sample
          else bounded (floats.to_uint (floats.mul fraction floats.two_to_63)))
