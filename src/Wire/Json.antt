-- ===== src/Wire/Json.antt =====
-- The JSON codec of internal/wire/codec.go.
use mcp_ironclaw.Prelude.{ℕ, Bool, List, map}
use mcp_ironclaw.Go.Time
use mcp_ironclaw.Go.Text.{Text}
use mcp_ironclaw.Domain.Errors.{Result, ok, err}
use mcp_ironclaw.Domain.Event.{Event, Batch}
use mcp_ironclaw.Domain.Key.{AggregateWindow}
use mcp_ironclaw.Wire.{Encoding, created_at_of}

pub record JsonEvent : Type 0 where
  pub device_id : Text
  pub user_id : Text
  pub process_id : ℕ  -- int32
  pub pod_id : Text
  pub kind : ℕ  -- uint8
  pub observed_at_unix_nanos : ℕ  -- int64
  pub latency_nanos : ℕ
  pub bytes : ℕ
  pub failed : Bool

pub record JsonBatch : Type 0 where
  pub device_id : Text
  pub created_at_unix_nanos : ℕ
  pub events : List JsonEvent

pub record JsonWindow : Type 0 where
  pub user_id : Text
  pub device_id : Text
  pub process_id : ℕ
  pub pod_id : Text
  pub window_id : ℕ
  pub sequence : ℕ
  pub window_start_unix_nanos : ℕ
  pub window_end_unix_nanos : ℕ
  pub count : ℕ
  pub error_count : ℕ
  pub bytes : ℕ
  pub p95_nanos : ℕ
  pub p99_nanos : ℕ
  pub max_nanos : ℕ

abbrev pub json_event : Event → JsonEvent
json_event e = record {
  device_id = e.device_id;
  user_id = e.user_id;
  process_id = e.process_id;
  pod_id = e.pod_id;
  kind = e.kind;
  observed_at_unix_nanos = Time.unix_nano e.observed_at;
  latency_nanos = e.latency_nanos;
  bytes = e.bytes;
  failed = e.failed;
}

unfoldable pub json_batch : Batch → JsonBatch
json_batch b = record {
  device_id = b.device_id;
  created_at_unix_nanos = Time.unix_nano b.created_at;
  events = map json_event b.events;
}

unfoldable pub json_window : AggregateWindow → JsonWindow
json_window w = record {
  user_id = w.user_id;
  device_id = w.device_id;
  process_id = w.process_id;
  pod_id = w.pod_id;
  window_id = w.window_id;
  sequence = w.sequence;
  window_start_unix_nanos = Time.unix_nano w.window_start;
  window_end_unix_nanos = Time.unix_nano w.window_end;
  count = w.count;
  error_count = w.error_count;
  bytes = w.bytes;
  p95_nanos = w.p95_nanos;
  p99_nanos = w.p99_nanos;
  max_nanos = w.max_nanos;
}

unfoldable pub event_of_json : JsonEvent → Event
event_of_json m = record {
  device_id = m.device_id;
  user_id = m.user_id;
  process_id = m.process_id;
  pod_id = m.pod_id;
  kind = m.kind;
  observed_at = Time.unix m.observed_at_unix_nanos;
  latency_nanos = m.latency_nanos;
  bytes = m.bytes;
  failed = m.failed;
}

abbrev pub batch_of_json : JsonBatch → List Event → Batch
batch_of_json m events = record {
  device_id = m.device_id;
  created_at = created_at_of m.created_at_unix_nanos;
  events = events;
}

unfoldable pub window_of_json : JsonWindow → AggregateWindow
window_of_json m = record {
  key = record {
    user_id = m.user_id;
    device_id = m.device_id;
    process_id = m.process_id;
    pod_id = m.pod_id;
  };
  window_id = m.window_id;
  sequence = m.sequence;
  window_start = Time.unix m.window_start_unix_nanos;
  window_end = Time.unix m.window_end_unix_nanos;
  count = m.count;
  error_count = m.error_count;
  bytes = m.bytes;
  p95_nanos = m.p95_nanos;
  p99_nanos = m.p99_nanos;
  max_nanos = m.max_nanos;
}

-- The library encoding/json, for the two kinds of values.
pub record JsonLibrary : Type 0 where
  pub batches : Encoding JsonBatch
  pub windows : Encoding JsonWindow

module _ (l : JsonLibrary) where
  abbrev pub encode_batch_json : Batch → Result (List ℕ)
  encode_batch_json b = l.batches.marshal (json_batch b)

  unfoldable pub decode_batch_json : List ℕ → Result Batch
  decode_batch_json raw = elim (l.batches.unmarshal raw) [
    | err e ↦ err e
    | ok m ↦ ok (batch_of_json m (map event_of_json m.events))
  ]

  abbrev pub encode_window_json : AggregateWindow → Result (List ℕ)
  encode_window_json w = l.windows.marshal (json_window w)

  unfoldable pub decode_window_json : List ℕ → Result AggregateWindow
  decode_window_json raw = elim (l.windows.unmarshal raw) [
    | err e ↦ err e
    | ok m ↦ ok (window_of_json m)
  ]
