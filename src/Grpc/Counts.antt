-- ===== src/Grpc/Counts.antt =====
-- What the end of a call records.
use opencensus_go.Floats.{Floats}
use opencensus_go.Stats.Measures.{Measurement, m_int64, m_float64}
use opencensus_go.Stats.Recording.{
  Outcome, done, with_tags, with_attachments, with_measurements, create_record_option,
  record_with_options, record_to, any_subscribed, mutated,
}
use opencensus_go.Tag.{Map, ok}
use opencensus_go.Tag.Mutators.{Mutator, upserts, new}
use opencensus_go.Grpc.{
  RpcData, RpcStats, out_payload, in_payload, ends, other, Given, handle_all,
  handle_rpc_out_payload, handle_rpc_in_payload, handle_rpc_end, stats_handle_rpc, rpc_measurements,
  key_client_method, key_client_status, key_server_status, method_name, status_code_to_string,
  rpc_tags, status_text, get_span_ctx_attachment,
}
use mathlib.Core.Path.{subst}
use opencensus_go.Prelude.{
  ℕ, ◌+◌, ◌-◌, ◌^◌, Bytes, none, ◌≡◌, ◌<◌, refl, sym, ap, ◌∙◌, List, [], ◌∷◌, Bool, true, false,
  Option, some, if◌then◌else◌, arith,
}

-- How many messages went out or came in, and how long they were together.
abbrev pub sent_messages : List RpcStats → ℕ
sent_messages [] = 0
sent_messages (s ∷ events) = (elim s [ out_payload n ↦ 1 | _ ↦ 0 ]) + sent_messages events

abbrev pub sent_length : List RpcStats → ℕ
sent_length [] = 0
sent_length (s ∷ events) = (elim s [ out_payload n ↦ n | _ ↦ 0 ]) + sent_length events

abbrev pub received_messages : List RpcStats → ℕ
received_messages [] = 0
received_messages (s ∷ events) = (elim s [ in_payload n ↦ 1 | _ ↦ 0 ]) + received_messages events

abbrev pub received_length : List RpcStats → ℕ
received_length [] = 0
received_length (s ∷ events) = (elim s [ in_payload n ↦ n | _ ↦ 0 ]) + received_length events

-- The data with the events added to their counts.
abbrev pub counted : RpcData → List RpcStats → RpcData
counted d events = record d {
  sent_count = d.sent_count + sent_messages events;
  sent_bytes = d.sent_bytes + sent_length events;
  recv_count = d.recv_count + received_messages events;
  recv_bytes = d.recv_bytes + received_length events;
}

-- The text of a status: "OK" without an error, nothing for an error of no status.
abbrev pub status_of : Option (Option ℕ) → Bytes
status_of none = 0x4f ∷ 0x4b ∷ []
status_of (some none) = []
status_of (some (some code)) = status_code_to_string code

-- A client tags its method and its status, a server its status.
abbrev pub tags_of : Bool → Bytes → Bytes → List Mutator
tags_of true method status =
    upserts key_client_method method [] ∷ upserts key_client_status status [] ∷ []
tags_of false method status = upserts key_server_status status [] ∷ []

status_text-status_of : (error : Option (Option ℕ)) → status_text error ≡ status_of error
status_text-status_of none = refl
status_text-status_of (some none) = refl
status_text-status_of (some (some code)) = refl

rpc_tags-tags_of :
    (client : Bool) (d : RpcData) (error : Option (Option ℕ))
    → rpc_tags client d (status_text error)
      ≡ tags_of client (method_name d.method) (status_of error)
rpc_tags-tags_of true d error = rw (status_text-status_of error) refl
rpc_tags-tags_of false d error = rw (status_text-status_of error) refl

-- The counts stay below 2 ^ 63.
abbrev pub Fits : RpcData → Type 0
Fits d =
    (d.sent_count < 2 ^ 63)
    × (d.sent_bytes < 2 ^ 63)
    × (d.recv_count < 2 ^ 63)
    × (d.recv_bytes < 2 ^ 63)

-- Data with equal fields.
same_data :
    (d : RpcData) (a a' b b' c c' e e' : ℕ)
    → a ≡ a'
    → b ≡ b'
    → c ≡ c'
    → e ≡ e'
    → record d { sent_count = a; sent_bytes = b; recv_count = c; recv_bytes = e }
      ≡ record d { sent_count = a'; sent_bytes = b'; recv_count = c'; recv_bytes = e' }
same_data d a a' b b' c c' e e' p q r s = rw (p, q, r, s) refl

module _ {F : Type 0} (floats : Floats F) (given : Given) where
  one_step :
      (d : RpcData) (s : RpcStats) (events : List RpcStats)
      → Fits (counted d (s ∷ events))
      → (d' : RpcData) × ((stats_handle_rpc floats given (some d) s).0 ≡ some d')
        × (counted d' events ≡ counted d (s ∷ events))
  unfolding stats_handle_rpc handle_rpc_out_payload handle_rpc_in_payload
  one_step d (out_payload n) events (sc, sb, rc, rb) = (
    handle_rpc_out_payload d n,
    refl,
    same_data d _ _ _ _ _ _ _ _ (omega (arith, sc)) (omega (arith, sb)) (omega arith) (omega arith),
  )
  one_step d (in_payload n) events (sc, sb, rc, rb) = (
    handle_rpc_in_payload d n,
    refl,
    same_data d _ _ _ _ _ _ _ _ (omega arith) (omega arith) (omega (arith, rc)) (omega (arith, rb)),
  )
  one_step d (ends client error now) events fits =
      (d, refl, same_data d _ _ _ _ _ _ _ _ (omega arith) (omega arith) (omega arith) (omega arith))
  one_step d other events fits =
      (d, refl, same_data d _ _ _ _ _ _ _ _ (omega arith) (omega arith) (omega arith) (omega arith))

  handle_all-counted :
      (d : RpcData) (events : List RpcStats)
      → Fits (counted d events)
      → handle_all floats given (some d) events ≡ some (counted d events)
  unfolding handle_all
  handle_all-counted d [] fits =
      ap (λ (x : RpcData). some x)
        (same_data d _ _ _ _ _ _ _ _ (omega arith) (omega arith) (omega arith) (omega arith))
  handle_all-counted d (s ∷ events) fits =
      let (d', step, same) = one_step d s events fits in
      let rest = subst (λ (x : RpcData). Fits x) (sym same) fits in
      ap (λ (x : Option RpcData). handle_all floats given x events) step
      ∙ handle_all-counted d' events rest
      ∙ ap (λ (x : RpcData). some x) same

  ends_lem :
      (d : RpcData) (client : Bool) (error : Option (Option ℕ)) (now recorder : ℕ) (tags : Map)
      → let ms = if client then given.client else given.server in
        let measurements : List (Measurement F) = rpc_measurements floats given ms d now in
        given.recorder ≡ some recorder
        → any_subscribed given.measures measurements ≡ true
        → new given.tags (rpc_tags client d (status_text error)) ≡ ok tags
        → handle_rpc_end floats given d client error now
          ≡ done (
              some (record {
                recorder = recorder;
                tags = some tags;
                measurements = measurements;
                attachments = get_span_ctx_attachment given.text given.span;
              }))
  unfolding handle_rpc_end record_with_options create_record_option record_to mutated with_tags
      with_attachments with_measurements
  ends_lem d true error now recorder tags r sub made =
      rw
        (
          handle_rpc_end, record_with_options, create_record_option, r, record_to, sub, mutated,
          made,
        )
        refl
  ends_lem d false error now recorder tags r sub made =
      rw
        (
          handle_rpc_end, record_with_options, create_record_option, r, record_to, sub, mutated,
          made,
        )
        refl

  -- The measurements of a call that was started with the data `d`: each measure with its count of
  -- the events, and the milliseconds of the call.
  abbrev pub measurements_of : RpcData → List RpcStats → Bool → ℕ → List (Measurement F)
  measurements_of d events client now =
      let ms = if client then given.client else given.server in
      m_int64 floats ms.sent_bytes_per_rpc (d.sent_bytes + sent_length events)
      ∷ m_int64 floats ms.sent_messages_per_rpc (d.sent_count + sent_messages events)
      ∷ m_int64 floats ms.received_messages_per_rpc (d.recv_count + received_messages events)
      ∷ m_int64 floats ms.received_bytes_per_rpc (d.recv_bytes + received_length events)
      ∷ m_float64 ms.latency
          (floats.div (floats.of_int (now - d.start_time)) (floats.of_int 1_000_000))
      ∷ []

  -- The events of a call are handled in any order before its end. If the counts of messages and of
  -- bytes stay below 2 ^ 63, some view subscribes to a measure of the call, and the tags of its
  -- method and status are accepted, then the end makes one record with those tags. It gives to each
  -- measure the number of the messages, or of the bytes, that went out or came in since the start
  -- of the call, and the latency in milliseconds.
  pub handle_all-ends :
      (d : RpcData) (events : List RpcStats) (client : Bool) (error : Option (Option ℕ)) (now : ℕ)
      (recorder : ℕ) (tags : Map)
      → Fits (counted d events)
      → given.recorder ≡ some recorder
      → any_subscribed given.measures (measurements_of d events client now) ≡ true
      → new given.tags (tags_of client (method_name d.method) (status_of error)) ≡ ok tags
      → (stats_handle_rpc floats given
          (handle_all floats given (some d) events)
          (ends client error now)).1
        ≡ some (
            done (
              some (record {
                recorder = recorder;
                tags = some tags;
                measurements = measurements_of d events client now;
                attachments = get_span_ctx_attachment given.text given.span;
              })))
  unfolding stats_handle_rpc
  handle_all-ends d events client error now recorder tags fits r sub made =
      ap (λ (x : Option RpcData). (stats_handle_rpc floats given x (ends client error now)).1)
        (handle_all-counted d events fits)
      ∙ ap (λ (x : Outcome F). some x)
          (ends_lem (counted d events) client error now recorder tags r sub (
            ap (λ (x : List Mutator). new given.tags x)
              (rpc_tags-tags_of client (counted d events) error)
            ∙ made))
