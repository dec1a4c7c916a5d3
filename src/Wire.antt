-- ===== src/Wire.antt =====
-- internal/wire/codec.go and edge.go: batches and windows as messages, in two formats. The libraries
-- that turn a message into bytes and back are parameters. The messages of the generated package
-- internal/wire/ironclawpb are records of their fields.
pub mod Json
pub mod Codec
pub mod Edge
pub mod RoundTrip
pub mod Formats
mod Examples
use mcp_ironclaw.Prelude.{if◌then◌else◌, ℕ, Bool, List, [], ◌∷◌, map}
use mcp_ironclaw.Go.Time
use mcp_ironclaw.Go.Int64.{is_positive}
use mcp_ironclaw.Go.Text.{Text}
use mcp_ironclaw.Domain.Errors.{Result}
use mcp_ironclaw.Domain.Event.{Event, Batch}
use mcp_ironclaw.Domain.Key.{AggregateWindow}

-- pb.Event
pub record EventMessage : Type 0 where
  pub device_id : Text
  pub user_id : Text
  pub process_id : ℕ  -- int32
  pub pod_id : Text
  pub kind : ℕ  -- uint32
  pub observed_at_unix_nanos : ℕ  -- int64
  pub latency_nanos : ℕ
  pub bytes : ℕ
  pub failed : Bool

-- pb.Batch
pub record BatchMessage : Type 0 where
  pub device_id : Text
  pub created_at_unix_nanos : ℕ
  pub events : List EventMessage

-- pb.AggregateWindow
pub record WindowMessage : Type 0 where
  pub user_id : Text
  pub device_id : Text
  pub process_id : ℕ
  pub pod_id : Text
  pub window_id : ℕ
  pub sequence : ℕ
  pub window_start_unix_nanos : ℕ
  pub window_end_unix_nanos : ℕ
  pub count : ℕ
  pub error_count : ℕ
  pub bytes : ℕ
  pub p95_nanos : ℕ
  pub p99_nanos : ℕ
  pub max_nanos : ℕ

-- What a library does with messages of one type: `Marshal` and `Unmarshal`.
pub record Encoding (M : Type 0) : Type 0 where
  pub marshal : M → Result (List ℕ)
  pub unmarshal : List ℕ → Result M

abbrev pub event_message : Event → EventMessage
event_message e = record {
  device_id = e.device_id;
  user_id = e.user_id;
  process_id = e.process_id;
  pod_id = e.pod_id;
  kind = e.kind;
  observed_at_unix_nanos = Time.unix_nano e.observed_at;
  latency_nanos = e.latency_nanos;
  bytes = e.bytes;
  failed = e.failed;
}

unfoldable pub batch_message : Batch → BatchMessage
batch_message b = record {
  device_id = b.device_id;
  created_at_unix_nanos = Time.unix_nano b.created_at;
  events = map event_message b.events;
}

unfoldable pub window_message : AggregateWindow → WindowMessage
window_message w = record {
  user_id = w.user_id;
  device_id = w.device_id;
  process_id = w.process_id;
  pod_id = w.pod_id;
  window_id = w.window_id;
  sequence = w.sequence;
  window_start_unix_nanos = Time.unix_nano w.window_start;
  window_end_unix_nanos = Time.unix_nano w.window_end;
  count = w.count;
  error_count = w.error_count;
  bytes = w.bytes;
  p95_nanos = w.p95_nanos;
  p99_nanos = w.p99_nanos;
  max_nanos = w.max_nanos;
}

-- A time that is not after 1970 is left at its zero value.
abbrev pub created_at_of : ℕ → ℕ
created_at_of nanos = if is_positive nanos then Time.unix nanos else Time.zero_time
