-- ===== src/Http/Tracker/Once.antt =====
-- plugin/ochttp/client_stats.go: what a tracker records while its body is read and closed.
use opencensus_go.Floats.{Floats}
use opencensus_go.Metric.{int64_add, is_negative}
use opencensus_go.Http.Tracker.{
  Tracker, Given, ReadError, nil, eof, failed, end, read, close, measurements, received,
}
use opencensus_go.Stats.Measures.{Measurement, m_int64, m_float64}
use opencensus_go.Stats.Recording.{Outcome, record_with_tags}
use opencensus_go.Tag.Mutators.{upserts}
use mathlib.Core.Path.{subst}
use opencensus_go.Prelude.{
  ℕ, ◌==◌, nat_eq, not, ◌&&◌, zero, suc, ◌+◌, ◌-◌, ltb, if◌then◌else◌, ◌^◌, ◌≡◌, ◌<◌, refl, sym, ap,
  ◌∙◌, List, [], ◌∷◌, ◌++◌, true, false, Option, none, some, arith,
}

-- A read of the body, with what it returned and when, or its end.
pub data Event : Type 0 where
  reads : ℕ → ReadError → ℕ → Event
  closes : ℕ → Event

-- Reads without an error, each with its number of bytes and its time.
abbrev pub chunks_read : List (ℕ × ℕ) → List Event
chunks_read [] = []
chunks_read ((n, now) ∷ chunks) = reads n nil now ∷ chunks_read chunks

abbrev pub bytes_read : List (ℕ × ℕ) → ℕ
bytes_read [] = 0
bytes_read ((n, now) ∷ chunks) = n + bytes_read chunks

abbrev with_outcome : {F : Type 0} → Option (Outcome F) → List (Outcome F) → List (Outcome F)
with_outcome none os = os
with_outcome (some o) os = o ∷ os

-- The size of a body of which so many bytes were read: without any it is a positive content length.
abbrev pub body_size : ℕ → ℕ → ℕ
body_size zero content_length = if ltb content_length (2 ^ 63) then content_length else 0
body_size (suc n) content_length = suc n

-- A measurement of a size, which is left out if the size is negative.
abbrev pub known_size : {A : Type 0} → ℕ → A → List A
known_size size m = if ltb size (2 ^ 63) then m ∷ [] else []

size_lem :
    (n content_length : ℕ)
    → (if n == 0 && (not (is_negative content_length) && not (content_length == 0))
        then content_length
        else n)
      ≡ body_size n content_length
size_lem zero c = ground arith
size_lem (suc n) c = ground arith

known_lem :
    {A : Type 0} (size : ℕ) (m : A)
    → (if is_negative size then [] else (m ∷ [])) ≡ known_size size m
known_lem size m = ground arith

module _ {F : Type 0} (floats : Floats F) (given : Given) where
  abbrev step : Tracker F → Event → Tracker F × Option (Outcome F)
  step t (reads n error now) = read floats given t n error now
  step t (closes now) = close floats given t now

  -- What the events record, in their order.
  unfoldable pub outcomes : Tracker F → List Event → List (Outcome F)
  unfolding read close
  outcomes t [] = []
  outcomes t (e ∷ es) = let (t', o) = step t e in with_outcome o (outcomes t' es)

  -- What the end of a request records.
  abbrev pub outcome : Tracker F → ℕ → Outcome F
  outcome t now =
      let status = given.text t.status_code in
      record_with_tags given.measures given.recorder t.tags
        (upserts given.status_code status [] ∷ upserts given.key_client_status status [] ∷ [])
        (measurements floats given t now)

  -- A tracker that has ended records nothing.
  quiet : (es : List Event) (t : Tracker F) → outcomes (record t { ended = true }) es ≡ []
  unfolding outcomes read close end
  quiet [] t = refl
  quiet (reads n nil now ∷ es) t = quiet es (record t { resp_size = int64_add t.resp_size n })
  quiet (reads n eof now ∷ es) t = quiet es (record t { resp_size = int64_add t.resp_size n })
  quiet (reads n failed now ∷ es) t = quiet es (record t { resp_size = int64_add t.resp_size n })
  quiet (closes now ∷ es) t = quiet es t

  open_once :
      (t : Tracker F) (chunks : List (ℕ × ℕ)) (n now : ℕ) (es : List Event)
      → t.resp_size + (bytes_read chunks + n) < 2 ^ 63
      → (outcomes (record t { ended = false }) (chunks_read chunks ++ reads n eof now ∷ es)
          ≡ outcome (record t { resp_size = t.resp_size + (bytes_read chunks + n) }) now ∷ [])
        × (outcomes (record t { ended = false }) (chunks_read chunks ++ closes now ∷ es)
            ≡ outcome (record t { resp_size = t.resp_size + bytes_read chunks }) now ∷ [])
  unfolding outcomes read close end
  open_once t [] n now es fits =
      let size : int64_add t.resp_size n ≡ t.resp_size + (0 + n) = omega (arith, fits) in
      let same : t.resp_size ≡ t.resp_size + 0 = omega arith in
      (
        ap (λ os. outcome (record t { resp_size = int64_add t.resp_size n }) now ∷ os)
              (quiet es (record t { resp_size = int64_add t.resp_size n }))
            ∙ ap (λ x. outcome (record t { resp_size = x }) now ∷ []) size,
        ap (λ os. outcome t now ∷ os) (quiet es t)
            ∙ ap (λ x. outcome (record t { resp_size = x }) now ∷ []) same,
      )
  open_once t ((k, at) ∷ chunks) n now es fits =
      let size : int64_add t.resp_size k ≡ t.resp_size + k = omega (arith, fits) in
      let t' = record t { resp_size = int64_add t.resp_size k } in
      let (read_end, closed) = open_once t' chunks n now es (omega (arith, size, fits)) in
      let total : int64_add t.resp_size k + (bytes_read chunks + n)
          ≡ t.resp_size + (k + bytes_read chunks + n) =
        omega (arith, size) in
      let so_far : int64_add t.resp_size k + bytes_read chunks
          ≡ t.resp_size + (k + bytes_read chunks) =
        omega (arith, size) in
      (
        read_end ∙ ap (λ x. outcome (record t { resp_size = x }) now ∷ []) total,
        closed ∙ ap (λ x. outcome (record t { resp_size = x }) now ∷ []) so_far,
      )

  running_once :
      (t : Tracker F) (chunks : List (ℕ × ℕ)) (n now : ℕ) (es : List Event)
      → t.ended ≡ false
      → t.resp_size + (bytes_read chunks + n) < 2 ^ 63
      → (outcomes t (chunks_read chunks ++ reads n eof now ∷ es)
          ≡ outcome (record t { resp_size = t.resp_size + (bytes_read chunks + n) }) now ∷ [])
        × (outcomes t (chunks_read chunks ++ closes now ∷ es)
            ≡ outcome (record t { resp_size = t.resp_size + bytes_read chunks }) now ∷ [])
  running_once t chunks n now es running fits =
      subst
        (λ u.
          (outcomes u (chunks_read chunks ++ reads n eof now ∷ es)
            ≡ outcome (record u { resp_size = u.resp_size + (bytes_read chunks + n) }) now ∷ [])
          × (outcomes u (chunks_read chunks ++ closes now ∷ es)
              ≡ outcome (record u { resp_size = u.resp_size + bytes_read chunks }) now ∷ []))
        (ap (λ b. record t { ended = b }) (sym running)) (open_once t chunks n now es fits)

  -- The record of a request after so many bytes of its body: each measure of clients with its
  -- value, under the two tags of the status.
  abbrev pub record_of : Tracker F → ℕ → ℕ → Outcome F
  record_of t read_bytes now =
      let status = given.text t.status_code in
      let latency = floats.div (floats.of_int (now - t.start)) (floats.of_int 1_000_000) in
      record_with_tags given.measures given.recorder t.tags
        (upserts given.status_code status [] ∷ upserts given.key_client_status status [] ∷ [])
        (m_int64 floats given.client_sent_bytes t.req_size
          ∷ m_int64 floats given.client_received_bytes (body_size read_bytes t.resp_content_length)
          ∷ m_float64 given.client_roundtrip_latency latency
          ∷ m_float64 given.client_latency latency
          ∷ m_int64 floats given.client_response_bytes read_bytes
          ∷ m_float64 given.client_got_first_byte_latency t.time_to_first_byte
          ∷ known_size t.req_size (m_int64 floats given.client_request_bytes t.req_size))

  received-body_size :
      (t : Tracker F) → received floats given t ≡ body_size t.resp_size t.resp_content_length
  received-body_size t = size_lem t.resp_size t.resp_content_length

  requested-known_size :
      (t : Tracker F)
      → let m : Measurement F = m_int64 floats given.client_request_bytes t.req_size in
        (if is_negative t.req_size then [] else (m ∷ [])) ≡ known_size t.req_size m
  requested-known_size t = known_lem t.req_size _

  outcome-record_of : (t : Tracker F) (now : ℕ) → outcome t now ≡ record_of t t.resp_size now
  outcome-record_of t now = rw (received-body_size t, requested-known_size t) refl

  -- A request is recorded once. Let a tracker that has not ended read its body in any chunks and
  -- then either meet the end of the body or be closed, and let the number of bytes stay below
  -- 2 ^ 63. Then, whatever is read or closed later, exactly one outcome is recorded: the bytes read
  -- as the response's, the same or, if there were none, a positive content length as the received
  -- ones, the size of the request as the sent ones and, unless it is negative, as the request's,
  -- and the latency up to then.
  pub outcomes-once :
      (t : Tracker F) (chunks : List (ℕ × ℕ)) (n now : ℕ) (es : List Event)
      → t.ended ≡ false
      → t.resp_size + (bytes_read chunks + n) < 2 ^ 63
      → (outcomes t (chunks_read chunks ++ reads n eof now ∷ es)
          ≡ record_of t (t.resp_size + (bytes_read chunks + n)) now ∷ [])
        × (outcomes t (chunks_read chunks ++ closes now ∷ es)
            ≡ record_of t (t.resp_size + bytes_read chunks) now ∷ [])
  outcomes-once t chunks n now es running fits =
      let (read_end, closed) = running_once t chunks n now es running fits in
      (
        read_end
            ∙ ap (λ o. o ∷ [])
                (outcome-record_of (record t { resp_size = t.resp_size + (bytes_read chunks + n) })
                  now),
        closed
            ∙ ap (λ o. o ∷ [])
                (outcome-record_of (record t { resp_size = t.resp_size + bytes_read chunks }) now),
      )
