-- ===== src/Http/Tracker/Examples.antt =====
-- The reading of a body of twelve bytes.
use opencensus_go.Floats.Whole.{whole}
use opencensus_go.Http.Tracker.{Tracker, Given, eof}
use opencensus_go.Http.Tracker.Once.{
  Event, reads, closes, chunks_read, outcomes, record_of, outcomes-once,
}
use opencensus_go.Stats.Measures.{Measure, int64_kind}
use opencensus_go.Prelude.{ℕ, ◌≡◌, refl, List, [], ◌∷◌, ◌++◌, some, true, false, arith}

abbrev measure : ℕ → Measure
measure n = record { kind = int64_kind; name = n ∷ []; description = []; unit_of = [] }

abbrev given : Given
given = record {
  measures = (0x62 ∷ [], record { subs = true; description = []; unit_of = [] }) ∷ [];
  recorder = some 1;
  client_sent_bytes = measure 0x61;
  client_received_bytes = measure 0x62;
  client_roundtrip_latency = measure 0x63;
  client_latency = measure 0x64;
  client_response_bytes = measure 0x65;
  client_got_first_byte_latency = measure 0x66;
  client_request_bytes = measure 0x67;
  status_code = 0x68 ∷ [];
  key_client_status = 0x69 ∷ [];
  text = λ n. n ∷ [];
}

abbrev started : Tracker ℕ
started = record {
  tags = some [];
  resp_size = 0;
  resp_content_length = 12;
  req_size = 5;
  time_to_first_byte = 0;
  start = 3;
  status_code = 0x32;
  ended = false;
}

abbrev later : List Event
later = closes 9 ∷ reads 0 eof 10 ∷ []

outcomes-once_example :
    (outcomes whole given started (chunks_read ((4, 5) ∷ (6, 7) ∷ []) ++ reads 2 eof 8 ∷ later)
      ≡ record_of whole given started 12 8 ∷ [])
    × (outcomes whole given started (chunks_read ((4, 5) ∷ (6, 7) ∷ []) ++ closes 8 ∷ later)
        ≡ record_of whole given started 10 8 ∷ [])
outcomes-once_example =
    outcomes-once whole given started ((4, 5) ∷ (6, 7) ∷ []) 2 8 later refl (omega arith)
