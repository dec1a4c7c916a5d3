-- ===== src/Domain/Examples.antt =====
-- The validation and the identities of the domain at concrete inputs.
use mcp_ironclaw.Prelude.{◌-◌, ◌^◌, false, [], ◌∷◌}
use mcp_ironclaw.Go.Text.{codes}
use mcp_ironclaw.Go.Time.{epoch}
use mcp_ironclaw.Domain.Event.{Event, Batch}
use mcp_ironclaw.Domain.Key.{CorrelationKey, AggregateWindow}

abbrev event : Event
event = record {
  device_id = codes "d";
  user_id = codes "u";
  process_id = 12;
  pod_id = codes "p";
  kind = 2;
  observed_at = epoch;
  latency_nanos = 0;
  bytes = 9;
  failed = false;
}

abbrev batch : Batch
batch = record { device_id = codes "d"; created_at = epoch; events = event ∷ [] }

abbrev key : CorrelationKey
key = record {
  user_id = codes "u";
  device_id = codes "d";
  process_id = 2 ^ 32 - 3;
  pod_id = codes "p";
}

abbrev window : AggregateWindow
window = record {
  key = key;
  window_id = 4;
  sequence = 17;
  window_start = epoch;
  window_end = epoch;
  count = 1;
  error_count = 0;
  bytes = 0;
  p95_nanos = 0;
  p99_nanos = 0;
  max_nanos = 0;
}
