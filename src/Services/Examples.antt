-- ===== src/Services/Examples.antt =====
-- The theorems on the services at concrete calls. The publisher keeps what it takes, and refuses the
-- windows of one sequence number.
use mcp_ironclaw.Prelude.{ℕ, ◌==◌, false, none, some, List, [], ◌∷◌, ◌++◌, if◌then◌else◌}
use mcp_ironclaw.Go.Text.{codes}
use mcp_ironclaw.Domain.Errors.{foreign}
use mcp_ironclaw.Domain.Key.{AggregateWindow, DeviceState}
use mcp_ironclaw.Aggregate.Aggregator.{Aggregator}
use mcp_ironclaw.Aggregate.Aggregator.Examples.{
  exact, loaded, loaded-Inv, loaded-HasRoom, drained, two_windows, collect_all-two_windows,
}
use mcp_ironclaw.Services.Emission.{WindowPublisher, emit_all, emit_closed_windows, handle_batch}
use mcp_ironclaw.Services.Emission as Emission
use mcp_ironclaw.Services.Emission.Retention.{IsSettled, emit_all-IsSettled}
use mcp_ironclaw.Services.Emission.Source.{aggregator_source, aggregator_laws}

abbrev refuse_nine : WindowPublisher (List AggregateWindow)
refuse_nine w taken = if w.sequence == 9 then (taken, some (foreign 1)) else (taken ++ w ∷ [], none)

abbrev service : Emission.Service (Aggregator (List ℕ)) (List AggregateWindow)
service = record { source = loaded; world = []; metrics = some []; last_shed = 0 }

emit_all-IsSettled_example :
    IsSettled
      (aggregator_source exact)
      refuse_nine
      (aggregator_laws exact)
      two_windows
      drained
      service
      (emit_all (aggregator_source exact) refuse_nine service).0
      (emit_all (aggregator_source exact) refuse_nine service).1
unfolding aggregator_laws
emit_all-IsSettled_example =
    emit_all-IsSettled (aggregator_source exact) refuse_nine (aggregator_laws exact) service drained
      two_windows (loaded-Inv, loaded-HasRoom) collect_all-two_windows

abbrev found : DeviceState
found = record {
  user_id = codes "u";
  device_id = codes "d";
  count = 3;
  error_count = 0;
  bytes = 1;
  p95_nanos = 1;
  p99_nanos = 1;
  last_window_id = 1;
  last_seen = 1;
  stale = false;
}

abbrev fresh : Emission.Service ℕ (List AggregateWindow)
fresh = record { source = 0; world = []; metrics = some []; last_shed = 0 }
