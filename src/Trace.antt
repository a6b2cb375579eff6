-- ===== src/Trace.antt =====
-- The package trace: the data that its parts share. Identifiers are lists of bytes (16 for a
-- trace, 8 for a span); times and durations are nanoseconds, counted from the zero time.
pub mod EvictedQueue
pub mod Bucket
pub mod SpanStore
pub mod TracestateEntries
pub mod LruMap
pub mod Span
pub mod Propagation
pub mod Ids
pub mod Sampling
pub mod Exporters
pub mod Codes
use opencensus_go.Prelude.{ℕ, Bytes, List, Bool, Option, ℤ, ◌==◌, nat_eq, ◌%◌}

pub record Entry : Type 0 where
  pub key : Bytes
  pub value : Bytes

-- `Tracestate`; a nil pointer is `none` where one may stand.
pub record Tracestate : Type 0 where
  pub entries : List Entry

pub record SpanContext : Type 0 where
  pub trace_id : Bytes
  pub span_id : Bytes
  pub trace_options : ℕ
  pub tracestate : Option Tracestate

-- `t&1 == 1`
abbrev pub is_sampled : SpanContext → Bool
is_sampled sc = sc.trace_options % 2 == 1

-- Attribute values are of any type in Go; here a text stands for each.
pub record Attribute : Type 0 where
  pub key : Bytes
  pub value : Bytes

pub record Annotation : Type 0 where
  pub time : ℕ
  pub message : Bytes
  pub attributes : List Attribute

pub data MessageEventType : Type 0 where
  unspecified sent recv : MessageEventType

pub record MessageEvent : Type 0 where
  pub time : ℕ
  pub event_type : MessageEventType
  pub message_id : ℤ
  pub uncompressed_byte_size : ℤ
  pub compressed_byte_size : ℤ

pub record Link : Type 0 where
  pub trace_id : Bytes
  pub span_id : Bytes
  pub link_type : ℕ
  pub attributes : List Attribute

pub record Status : Type 0 where
  pub code : ℤ
  pub message : Bytes

pub record SpanData : Type 0 where
  pub span_context : SpanContext
  pub parent_span_id : Bytes
  pub span_kind : ℕ
  pub name : Bytes
  pub start_time : ℕ
  pub end_time : ℕ
  pub attributes : List Attribute
  pub annotations : List Annotation
  pub message_events : List MessageEvent
  pub status : Status
  pub links : List Link
  pub has_remote_parent : Bool
  pub dropped_attribute_count : ℕ
  pub dropped_annotation_count : ℕ
  pub dropped_message_event_count : ℕ
  pub dropped_link_count : ℕ
  pub child_span_count : ℕ
