-- ===== src/Grpc.antt =====
-- plugin/ocgrpc/stats_common.go, client_stats_handler.go and server_stats_handler.go: what is counted of a call by gRPC and recorded at its end. The
-- library of gRPC calls the handlers; its status codes are numbers.
pub mod Counts
mod Examples
use opencensus_go.Floats.{Floats}
use opencensus_go.Metric.{int64_add}
use opencensus_go.Stats.AggregationData.{Attachments}
use opencensus_go.Stats.Measures.{Measures, Measure, Measurement, m_int64, m_float64}
use opencensus_go.Stats.Recording.{
  Outcome, with_tags, with_attachments, with_measurements, record_with_options,
}
use opencensus_go.Tag.{Key, Map, Result, ok, err, panic, stuck}
use opencensus_go.Tag.Codec.{encode, decode}
use opencensus_go.Tag.Mutators.{Mutator, upserts, new}
use opencensus_go.Trace.{SpanContext, is_sampled}
use opencensus_go.Trace.Codes.{status_names}
use opencensus_go.Prelude.{
  ℕ, zero, suc, ◌+◌, ◌-◌, ◌/◌, ◌%◌, ◌^◌, Bytes, nat_eq, ◌==◌, List, [], ◌∷◌, ◌++◌, Bool, true,
  false, Option, none, some, ltb, get_elem?, if◌then◌else◌,
}

pub record RpcData : Type 0 where
  pub sent_count : ℕ
  pub sent_bytes : ℕ
  pub recv_count : ℕ
  pub recv_bytes : ℕ
  pub start_time : ℕ
  pub method : Bytes

-- `strings.TrimLeft(fullname, "/")`
unfoldable pub method_name : Bytes → Bytes
method_name [] = []
method_name (c ∷ cs) = let rest = method_name cs in if c == 0x2f then rest else c ∷ cs

-- A number in decimal, with fuel for its digits; 10 are enough for a code of 32 bits.
unfoldable pub decimal : ℕ → ℕ → Bytes
decimal zero n = []
decimal (suc fuel) n =
    let rest = decimal fuel (n / 10) in
    if ltb n 10 then (0x30 + n) ∷ [] else rest ++ ((0x30 + n % 10) ∷ [])

-- The names of the codes from 0 on.
abbrev code_names : List Bytes
code_names = status_names

-- Any other code is "CODE_" and its number.
unfoldable pub status_code_to_string : ℕ → Bytes
unfolding decimal
status_code_to_string c = elim (get_elem? code_names c) [
  | some name ↦ name
  | none ↦ (0x43 ∷ 0x4f ∷ 0x44 ∷ 0x45 ∷ 0x5f ∷ []) ++ decimal 10 c
]

abbrev pub key_client_method : Key
key_client_method =
    0x67 ∷ 0x72 ∷ 0x70 ∷ 0x63 ∷ 0x5f ∷ 0x63 ∷ 0x6c ∷ 0x69 ∷ 0x65 ∷ 0x6e ∷ 0x74 ∷ 0x5f ∷ 0x6d ∷ 0x65
    ∷ 0x74 ∷ 0x68 ∷ 0x6f ∷ 0x64 ∷ []

abbrev pub key_client_status : Key
key_client_status =
    0x67 ∷ 0x72 ∷ 0x70 ∷ 0x63 ∷ 0x5f ∷ 0x63 ∷ 0x6c ∷ 0x69 ∷ 0x65 ∷ 0x6e ∷ 0x74 ∷ 0x5f ∷ 0x73 ∷ 0x74
    ∷ 0x61 ∷ 0x74 ∷ 0x75 ∷ 0x73 ∷ []

abbrev pub key_server_status : Key
key_server_status =
    0x67 ∷ 0x72 ∷ 0x70 ∷ 0x63 ∷ 0x5f ∷ 0x73 ∷ 0x65 ∷ 0x72 ∷ 0x76 ∷ 0x65 ∷ 0x72 ∷ 0x5f ∷ 0x73 ∷ 0x74
    ∷ 0x61 ∷ 0x74 ∷ 0x75 ∷ 0x73 ∷ []

abbrev pub key_server_method : Key
key_server_method =
    0x67 ∷ 0x72 ∷ 0x70 ∷ 0x63 ∷ 0x5f ∷ 0x73 ∷ 0x65 ∷ 0x72 ∷ 0x76 ∷ 0x65 ∷ 0x72 ∷ 0x5f ∷ 0x6d ∷ 0x65
    ∷ 0x74 ∷ 0x68 ∷ 0x6f ∷ 0x64 ∷ []

-- "SpanContext", the key of an attachment.
abbrev pub attachment_key_span_context : Bytes
attachment_key_span_context =
    0x53 ∷ 0x70 ∷ 0x61 ∷ 0x6e ∷ 0x43 ∷ 0x6f ∷ 0x6e ∷ 0x74 ∷ 0x65 ∷ 0x78 ∷ 0x74 ∷ []

-- The attachment of a sampled span, of which `text` stands for the context.
unfoldable pub get_span_ctx_attachment : (SpanContext → Bytes) → Option SpanContext → Attachments
get_span_ctx_attachment text none = []
get_span_ctx_attachment text (some sc) =
    if is_sampled sc then (attachment_key_span_context, text sc) ∷ [] else []

-- The events of a call. The end has the error: `none` is nil, `some none` one of no status.
pub data RpcStats : Type 0 where
  out_payload in_payload : ℕ → RpcStats
  ends : Bool → Option (Option ℕ) → ℕ → RpcStats
  other : RpcStats

-- The measures of a client or of a server.
pub record RpcMeasures : Type 0 where
  pub sent_bytes_per_rpc : Measure
  pub sent_messages_per_rpc : Measure
  pub received_messages_per_rpc : Measure
  pub received_bytes_per_rpc : Measure
  pub latency : Measure

unfoldable pub handle_rpc_out_payload : RpcData → ℕ → RpcData
handle_rpc_out_payload d length = record d {
  sent_bytes = int64_add d.sent_bytes length;
  sent_count = int64_add d.sent_count 1;
}

unfoldable pub handle_rpc_in_payload : RpcData → ℕ → RpcData
handle_rpc_in_payload d length = record d {
  recv_bytes = int64_add d.recv_bytes length;
  recv_count = int64_add d.recv_count 1;
}

abbrev status_text : Option (Option ℕ) → Bytes
status_text none = 0x4f ∷ 0x4b ∷ []
status_text (some none) = []
status_text (some (some c)) = status_code_to_string c

abbrev rpc_tags : Bool → RpcData → Bytes → List Mutator
rpc_tags true d st =
    upserts key_client_method (method_name d.method) [] ∷ upserts key_client_status st [] ∷ []
rpc_tags false d st = upserts key_server_status st [] ∷ []

-- What the handlers work on: the registry of measures, the default recorder, the tags and the span
-- of the context, and the measures of the client and of the server.
pub record Given : Type 0 where
  pub measures : Measures
  pub recorder : Option ℕ
  pub tags : Option Map
  pub span : Option SpanContext
  pub text : SpanContext → Bytes
  pub client : RpcMeasures
  pub server : RpcMeasures

-- `statsTagRPC` of a client: new data, and the tags for the wire, where `none` is no tags. The
-- result is `none` if encoding panics. The name of the method is of an info that is not nil.
unfoldable pub client_tag_rpc : Option Map → Bytes → ℕ → Option (RpcData × Option Bytes)
unfolding encode
client_tag_rpc ts full_method now =
    let d : RpcData = record {
      sent_count = 0;
      sent_bytes = 0;
      recv_count = 0;
      recv_bytes = 0;
      start_time = now;
      method = full_method;
    } in
    elim ts [
      | none ↦ some (d, none)
      | some m ↦ elim (encode (some m)) [ none ↦ none | some s ↦ some (d, some s) ]
    ]

-- Tags that do not decode count as none.
unfoldable pub extract_propagated_tags : Option Bytes → Result (Option Map)
unfolding decode
extract_propagated_tags none = ok none
extract_propagated_tags (some buf) = elim (decode buf) [
  | ok m ↦ ok (some m)
  | err e ↦ ok none
  | panic ↦ panic
  | stuck ↦ stuck
]

-- `statsTagRPC` of a server: new data, and the tags of the context; an error of `tag.New` leaves
-- the context as it is.
unfoldable pub server_tag_rpc : Option Bytes → Bytes → ℕ → Result (RpcData × Option Map)
unfolding extract_propagated_tags new
server_tag_rpc buf full_method now =
    let d : RpcData = record {
      sent_count = 0;
      sent_bytes = 0;
      recv_count = 0;
      recv_bytes = 0;
      start_time = now;
      method = full_method;
    } in
    elim (extract_propagated_tags buf) [
      | ok propagated ↦
          elim (new propagated (upserts key_server_method (method_name full_method) [] ∷ [])) [
            | ok m ↦ ok (d, some m)
            | err e ↦ ok (d, propagated)
            | panic ↦ panic
            | stuck ↦ stuck
          ]
      | err e ↦ err e
      | panic ↦ panic
      | stuck ↦ stuck
    ]

module _ {F : Type 0} (floats : Floats F) (given : Given) where
  abbrev pub rpc_measurements : RpcMeasures → RpcData → ℕ → List (Measurement F)
  rpc_measurements ms d now =
      m_int64 floats ms.sent_bytes_per_rpc d.sent_bytes
      ∷ m_int64 floats ms.sent_messages_per_rpc d.sent_count
      ∷ m_int64 floats ms.received_messages_per_rpc d.recv_count
      ∷ m_int64 floats ms.received_bytes_per_rpc d.recv_bytes
      ∷ m_float64 ms.latency
          (floats.div (floats.of_int (now - d.start_time)) (floats.of_int (10 ^ 6)))
      ∷ []

  unfoldable pub handle_rpc_end : RpcData → Bool → Option (Option ℕ) → ℕ → Outcome F
  unfolding record_with_options with_tags with_attachments with_measurements get_span_ctx_attachment
  handle_rpc_end d client error now =
      let ms = if client then given.client else given.server in
      record_with_options given.measures given.recorder given.tags (
        with_tags (rpc_tags client d (status_text error))
        ∷ with_attachments (get_span_ctx_attachment given.text given.span)
        ∷ with_measurements (rpc_measurements ms d now)
        ∷ [])

  -- `statsHandleRPC`: the data of the call, and what an end records. Without data in the context
  -- nothing happens.
  unfoldable pub stats_handle_rpc : Option RpcData → RpcStats → Option RpcData × Option (Outcome F)
  unfolding handle_rpc_out_payload handle_rpc_in_payload handle_rpc_end
  stats_handle_rpc none s = (none, none)
  stats_handle_rpc (some d) (out_payload length) = (some (handle_rpc_out_payload d length), none)
  stats_handle_rpc (some d) (in_payload length) = (some (handle_rpc_in_payload d length), none)
  stats_handle_rpc (some d) (ends client error now) =
      (some d, some (handle_rpc_end d client error now))
  stats_handle_rpc (some d) other = (some d, none)

  -- The calls of the handler for the events of a call, of which the first stands first.
  unfoldable pub handle_all : Option RpcData → List RpcStats → Option RpcData
  unfolding stats_handle_rpc
  handle_all d [] = d
  handle_all d (s ∷ events) = handle_all (stats_handle_rpc d s).0 events
