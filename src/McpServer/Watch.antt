-- ===== src/McpServer/Watch.antt =====
-- internal/mcpserver/tools.go: `WatchDevice`, before and after its wait.
use mcp_ironclaw.Prelude.{
  ℕ, ◌+◌, ◌-◌, ◌*◌, Bool, true, false, not, Option, none, some, leb, if◌then◌else◌,
}
use mcp_ironclaw.Go.Int64.{is_positive, slt, mul64}
use mcp_ironclaw.Go.Text.{Text}
use mcp_ironclaw.Domain.Errors.{
  Error, Result, ok, err, ◌>>◌, no_device_watcher, too_many_watches, watch_closed,
}
use mcp_ironclaw.Domain.Key.{DeviceState}
use mcp_ironclaw.McpServer.Principal.{Context, authorise}
use mcp_ironclaw.McpServer.Tools.{
  Tools, DeviceStateOutput, state_output, check_device, check_identifiers, absent,
}

abbrev pub default_max_watches : ℕ
default_max_watches = 64

abbrev pub default_watch_timeout : ℕ
default_watch_timeout = 30 * 1_000_000_000

abbrev pub max_watch_timeout : ℕ
max_watch_timeout = 300 * 1_000_000_000

module _ {W : Type 0} (t : Tools W) where
  -- The checks of `WatchDevice`.
  unfoldable pub check_watch : Context → Text → Text → Option Error
  check_watch ctx user device =
      check_device user device
      >> absent t.watcher no_device_watcher
      >> check_identifiers user device
      >> authorise t.require_auth ctx user

  abbrev pub watch_with :
      Option (Context → Text → Text → W → W × Option Error)
      → Context
      → Text
      → Text
      → W
      → W × Option Error
  watch_with (some watch) ctx user device x = watch ctx user device x
  watch_with none ctx user device x = (x, some no_device_watcher)

  -- The first part of Tools.WatchDevice, up to the wait: with the number of slots in use, and the
  -- slot given back when the watcher fails.
  unfoldable pub begin_watch : Context → Text → Text → ℕ × W → (ℕ × W) × Option Error
  begin_watch ctx user device (used, x) =
      let (x', failure) = watch_with t.watcher ctx user device x in
      elim (check_watch ctx user device) [
        | some e ↦ ((used, x), some e)
        | none ↦
            if leb t.watch_slots used
            then ((used, x), some too_many_watches)
            else elim failure [ some e ↦ ((used, x'), some e) | none ↦ ((used + 1, x'), none) ]
      ]

-- The slots of the tools that `NewTools` builds.
abbrev pub watch_slots_of : ℕ → ℕ
watch_slots_of watches = if is_positive watches then watches else default_max_watches

-- wait, for the seconds that a client asks for
unfoldable pub watch_timeout : ℕ → ℕ
watch_timeout seconds =
    let asked = mul64 seconds 1_000_000_000 in
    let wait = if is_positive asked then asked else default_watch_timeout in
    if slt max_watch_timeout wait then max_watch_timeout else wait

-- What ends the wait of `WatchDevice`: its context, its timer, an update, or the end of the watch.
pub data Wake : Type 0 where
  context_done : Error → Wake
  timer_fired : Wake
  updated : DeviceState → Wake
  channel_closed : Wake

pub record WatchDeviceOutput : Type 0 where
  pub user_id : Text
  pub device_id : Text
  pub updated : Bool
  pub timed_out : Bool
  pub waited_for : ℕ  -- time.Duration, which the output has as a text
  pub state : Option DeviceStateOutput  -- the zero value for `none`

-- The end of Tools.WatchDevice: what it returns, and its slot given back.
unfoldable pub end_watch :
    {W : Type 0} → Text → Text → ℕ → Wake → ℕ × W → (ℕ × W) × Result WatchDeviceOutput
end_watch user device seconds wake (used, x) = ((used - 1, x), answer wake)
  where
    output : Bool → Option DeviceStateOutput → WatchDeviceOutput
    output timed_out state = record {
      user_id = user;
      device_id = device;
      updated = not timed_out;
      timed_out = timed_out;
      waited_for = watch_timeout seconds;
      state = state;
    }

    answer : Wake → Result WatchDeviceOutput
    answer (Wake.context_done e) = err e
    answer Wake.timer_fired = ok (output true none)
    answer (Wake.updated s) = ok (output false (some (state_output s)))
    answer Wake.channel_closed = err watch_closed
