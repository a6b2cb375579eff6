-- ===== src/Http/Tracker.antt =====
-- plugin/ochttp/client_stats.go: the statistics of one request of a client. The body that the
-- tracker reads is the transport's; what it returns is an argument.
pub mod Once
mod Examples
use opencensus_go.Floats.{Floats}
use opencensus_go.Metric.{is_negative, int64_add}
use opencensus_go.Stats.Measures.{Measures, Measure, Measurement, m_int64, m_float64}
use opencensus_go.Stats.Recording.{Outcome, record_with_tags}
use opencensus_go.Tag.{Key, Map}
use opencensus_go.Tag.Mutators.{upserts}
use opencensus_go.Prelude.{
  ℕ, ◌-◌, ◌^◌, Bytes, nat_eq, ◌==◌, List, [], ◌∷◌, ◌++◌, Bool, true, not, ◌&&◌, Option, none, some,
  if◌then◌else◌,
}

-- Sizes are int64; `ended` says that `endOnce` has run.
pub record Tracker (F : Type 0) : Type 0 where
  pub tags : Option Map
  pub resp_size : ℕ
  pub resp_content_length : ℕ
  pub req_size : ℕ
  pub time_to_first_byte : F
  pub start : ℕ
  pub status_code : ℕ
  pub ended : Bool

-- The measures of clients, the registry of measures and the default recorder; `text` is
-- `strconv.Itoa`.
pub record Given : Type 0 where
  pub measures : Measures
  pub recorder : Option ℕ
  pub client_sent_bytes : Measure
  pub client_received_bytes : Measure
  pub client_roundtrip_latency : Measure
  pub client_latency : Measure
  pub client_response_bytes : Measure
  pub client_got_first_byte_latency : Measure
  pub client_request_bytes : Measure
  pub status_code : Key
  pub key_client_status : Key
  pub text : ℕ → Bytes

-- What a read of the body returns beside its bytes.
pub data ReadError : Type 0 where
  nil eof failed : ReadError

module _ {F : Type 0} (floats : Floats F) (given : Given) where
  abbrev millis : ℕ → F
  millis duration = floats.div (floats.of_int duration) (floats.of_int (10 ^ 6))

  -- The content length stands for a body that was not read.
  abbrev received : Tracker F → ℕ
  received t =
      let positive = not (is_negative t.resp_content_length) && not (t.resp_content_length == 0) in
      if t.resp_size == 0 && positive then t.resp_content_length else t.resp_size

  abbrev measurements : Tracker F → ℕ → List (Measurement F)
  measurements t now =
      let latency_ms = millis (now - t.start) in
      let requested : List (Measurement F) =
        m_int64 floats given.client_request_bytes t.req_size ∷ [] in
      (m_int64 floats given.client_sent_bytes t.req_size
        ∷ m_int64 floats given.client_received_bytes (received t)
        ∷ m_float64 given.client_roundtrip_latency latency_ms
        ∷ m_float64 given.client_latency latency_ms
        ∷ m_int64 floats given.client_response_bytes t.resp_size
        ∷ m_float64 given.client_got_first_byte_latency t.time_to_first_byte
        ∷ [])
      ++ (if is_negative t.req_size then [] else requested)

  -- The tracker, and what the first end records.
  unfoldable pub end : Tracker F → ℕ → Tracker F × Option (Outcome F)
  unfolding record_with_tags
  end t now =
      let status = given.text t.status_code in
      let recorded : Option (Outcome F) = some (
        record_with_tags given.measures given.recorder t.tags
          (upserts given.status_code status [] ∷ upserts given.key_client_status status [] ∷ [])
          (measurements t now)) in
      if t.ended then (t, none) else (record t { ended = true }, recorded)

  -- `Read`, where the body has returned `n` bytes and an error.
  unfoldable pub read : Tracker F → ℕ → ReadError → ℕ → Tracker F × Option (Outcome F)
  unfolding end
  read t n error now =
      let t' = record t { resp_size = int64_add t.resp_size n } in
      elim error [ eof ↦ end t' now | _ ↦ (t', none) ]

  unfoldable pub close : Tracker F → ℕ → Tracker F × Option (Outcome F)
  unfolding end
  close t now = end t now

  unfoldable pub got_first_response_byte : Tracker F → ℕ → Tracker F
  got_first_response_byte t now = record t { time_to_first_byte = millis (now - t.start) }
