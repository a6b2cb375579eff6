-- ===== src/Grpc/Examples.antt =====
-- A call of a client with two messages out and one in.
use opencensus_go.Floats.Whole.{whole}
use opencensus_go.Grpc.{
  RpcData, RpcStats, out_payload, in_payload, ends, other, RpcMeasures, Given, handle_all,
  stats_handle_rpc, method_name, get_span_ctx_attachment, key_client_method, key_client_status,
}
use opencensus_go.Grpc.Counts.{measurements_of, handle_all-ends}
use opencensus_go.Stats.Measures.{Measure, int64_kind, Measurement, subscribed, m_int64}
use opencensus_go.Stats.Recording.{done, any_subscribed}
use opencensus_go.Tag.{Map, TagContent, ttl_unlimited_propagation}
use opencensus_go.Tag.Validate.{check_value}
use opencensus_go.Tag.Mutators.{new, mutate}
use opencensus_go.Prelude.{ℕ, Bytes, ◌≡◌, refl, List, [], ◌∷◌, some, none, true, arith}

abbrev measure : ℕ → Measure
measure n = record { kind = int64_kind; name = n ∷ []; description = []; unit_of = [] }

abbrev measures_of : RpcMeasures
measures_of = record {
  sent_bytes_per_rpc = measure 0x61;
  sent_messages_per_rpc = measure 0x62;
  received_messages_per_rpc = measure 0x63;
  received_bytes_per_rpc = measure 0x64;
  latency = measure 0x65;
}

abbrev given : Given
given = record {
  measures = (0x62 ∷ [], record { subs = true; description = []; unit_of = [] }) ∷ [];
  recorder = some 1;
  tags = none;
  span = none;
  text = λ sc. sc.trace_id;
  client = measures_of;
  server = measures_of;
}

abbrev started : RpcData
started = record {
  sent_count = 0;
  sent_bytes = 0;
  recv_count = 0;
  recv_bytes = 0;
  start_time = 3;
  method = 0x2f ∷ 0x6d ∷ [];
}

abbrev events : List RpcStats
events = out_payload 10 ∷ other ∷ in_payload 7 ∷ out_payload 5 ∷ []

abbrev content : Bytes → TagContent
content v = record { value = v; m = record { ttl = ttl_unlimited_propagation } }

abbrev tags : Map
tags =
    (key_client_method, content (0x6d ∷ [])) ∷ (key_client_status, content (0x4f ∷ 0x4b ∷ [])) ∷ []

abbrev measurements : List (Measurement ℕ)
measurements = measurements_of whole given started events true 13

handle_all-ends_example :
    (stats_handle_rpc whole given
      (handle_all whole given (some started) events)
      (ends true none 13)).1
    ≡ some (
        done (
          some (record {
            recorder = 1;
            tags = some tags;
            measurements = measurements;
            attachments = [];
          })))
unfolding any_subscribed subscribed new mutate method_name get_span_ctx_attachment m_int64
    check_value
handle_all-ends_example =
    handle_all-ends whole given started events true none 13 1 tags
      (omega arith, omega arith, omega arith, omega arith) refl refl refl
