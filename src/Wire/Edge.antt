-- ===== src/Wire/Edge.antt =====
-- internal/wire/edge.go: what an agent sends to the edge.
use mcp_ironclaw.Prelude.{ℕ, Bool, List, map}
use mcp_ironclaw.Go.Time
use mcp_ironclaw.Go.Text.{Text}
use mcp_ironclaw.Domain.Errors.{Result}
use mcp_ironclaw.Domain.Event.{Event, Batch}
use mcp_ironclaw.Wire.{Encoding}

pub record EdgeEvent : Type 0 where
  pub user_id : Text
  pub process_id : ℕ  -- int32
  pub kind : ℕ  -- uint8
  pub observed_at_unix_nanos : ℕ  -- int64
  pub latency_nanos : ℕ
  pub bytes : ℕ
  pub failed : Bool

pub record EdgeBatch : Type 0 where
  pub device_id : Text
  pub events : List EdgeEvent

abbrev pub edge_event : Event → EdgeEvent
edge_event e = record {
  user_id = e.user_id;
  process_id = e.process_id;
  kind = e.kind;
  observed_at_unix_nanos = Time.unix_nano e.observed_at;
  latency_nanos = e.latency_nanos;
  bytes = e.bytes;
  failed = e.failed;
}

unfoldable pub edge_batch : Batch → EdgeBatch
edge_batch b = record { device_id = b.device_id; events = map edge_event b.events }

-- EncodeEdgeBatch
abbrev pub encode_edge_batch : Encoding EdgeBatch → Batch → Result (List ℕ)
encode_edge_batch l b = l.marshal (edge_batch b)
