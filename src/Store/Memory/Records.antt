-- ===== src/Store/Memory/Records.antt =====
-- The record of a device in internal/store/memory.go: what a window does to it, and what a reset does.
use mcp_ironclaw.Prelude.{false, ℕ, Bool, true, [], ◌==◌, if◌then◌else◌}
use mcp_ironclaw.Go.Int64.{add64, slt}
use mcp_ironclaw.Go.Time
use mcp_ironclaw.Go.Text.{Text}
use mcp_ironclaw.Go.Map.{Map, put, string_eq}
use mcp_ironclaw.Domain.Key.{AggregateWindow, DeviceState, identity}

pub record DeviceRecord : Type 0 where
  pub state : DeviceState
  pub applied : Map Text Bool
  pub percentile_sample : ℕ  -- int64

-- The record that `ApplyWindow` makes for a device it does not know.
abbrev pub new_record : AggregateWindow → DeviceRecord
new_record w = record {
  state = record {
    user_id = w.user_id;
    device_id = w.device_id;
    count = 0;
    error_count = 0;
    bytes = 0;
    p95_nanos = 0;
    p99_nanos = 0;
    last_window_id = 0;
    last_seen = Time.zero_time;
    stale = false;
  };
  applied = [];
  percentile_sample = 0;
}

-- The three additions of `ApplyWindow`, and the identity marked as applied.
unfoldable pub add_counts : AggregateWindow → DeviceRecord → DeviceRecord
add_counts w r = record r {
  state = record (r.state) {
    count = add64 r.state.count w.count;
    error_count = add64 r.state.error_count w.error_count;
    bytes = add64 r.state.bytes w.bytes;
  };
  applied = put (identity w) true r.applied;
}

-- A window later than any applied: `case window.WindowID > record.state.LastWindowID`.
abbrev pub latest : AggregateWindow → DeviceRecord → DeviceRecord
latest w r = record r {
  state = record (r.state) {
    last_window_id = w.window_id;
    p95_nanos = w.p95_nanos;
    p99_nanos = w.p99_nanos;
    last_seen = w.window_end;
  };
  percentile_sample = w.count;
}

-- `if window.Count > record.percentileSample`
abbrev pub resample : AggregateWindow → DeviceRecord → DeviceRecord
resample w r =
    if slt r.percentile_sample w.count
    then record r {
      state = record (r.state) { p95_nanos = w.p95_nanos; p99_nanos = w.p99_nanos };
      percentile_sample = w.count;
    }
    else r

-- `if window.WindowEnd.After(record.state.LastSeen)`
abbrev pub see : AggregateWindow → DeviceRecord → DeviceRecord
see w r =
    if Time.after w.window_end r.state.last_seen
    then record r { state = record (r.state) { last_seen = w.window_end } }
    else r

-- The `switch` of `ApplyWindow`.
unfoldable pub refresh : AggregateWindow → DeviceRecord → DeviceRecord
refresh w r =
    if slt r.state.last_window_id w.window_id
    then latest w r
    else if w.window_id == r.state.last_window_id
    then see w (resample w r)
    else r

-- The record after `ResetDevice`: the counts and the percentiles go, what was applied stays.
abbrev pub zeroed : DeviceRecord → DeviceRecord
zeroed r = record r {
  state = record (r.state) { count = 0; error_count = 0; bytes = 0; p95_nanos = 0; p99_nanos = 0 };
  percentile_sample = 0;
}
