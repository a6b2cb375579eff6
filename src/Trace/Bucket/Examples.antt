-- ===== src/Trace/Bucket/Examples.antt =====
-- The bucket and the latency ranges at concrete spans.
use opencensus_go.Trace.{SpanData}
use opencensus_go.Trace.Bucket.{Bucket, make_bucket, add, resize}
use opencensus_go.Trace.Bucket.Laws.{contents, IsValid, contents-add}
use opencensus_go.Trace.Bucket.Resize.{contents-resize}
use opencensus_go.Prelude.{
  ℕ, ◌*◌, ◌≡◌, refl, [], ◌∷◌, ◌++◌, some, none, false, pos, arith, length, newest,
}

-- A span that ends at the second `t`.
abbrev ended_at : ℕ → SpanData
ended_at t = record {
  span_context = record { trace_id = []; span_id = []; trace_options = 1; tracestate = none };
  parent_span_id = [];
  span_kind = 0;
  name = [];
  start_time = 0;
  end_time = t * 1_000_000_000;
  attributes = [];
  annotations = [];
  message_events = [];
  status = record { code = pos 0; message = [] };
  links = [];
  has_remote_parent = false;
  dropped_attribute_count = 0;
  dropped_annotation_count = 0;
  dropped_message_event_count = 0;
  dropped_link_count = 0;
  child_span_count = 0;
}

-- Three spans in a bucket of two: the first is gone.
abbrev three : Bucket
unfolding add make_bucket
three = add (add (add (make_bucket 2) (ended_at 1)) (ended_at 2)) (ended_at 3)

contents-three : contents three ≡ some (ended_at 2) ∷ some (ended_at 3) ∷ []
unfolding contents three add make_bucket
contents-three = refl

three-IsValid : IsValid three
unfolding three add make_bucket
three-IsValid = omega arith

contents-add_example :
    (contents (add three (ended_at 4)) ≡ newest 2 (contents three ++ (some (ended_at 4) ∷ [])))
    × IsValid (add three (ended_at 4))
    × (length (add three (ended_at 4)).buffer ≡ 2)
unfolding three make_bucket add
contents-add_example = contents-add three (ended_at 4) three-IsValid

contents-resize_example :
    (b : Bucket) × (resize three 1 ≡ some b)
    × (contents b ≡ newest 1 (contents three))
    × IsValid b
    × (length b.buffer ≡ 1)
contents-resize_example = contents-resize three 1 three-IsValid
