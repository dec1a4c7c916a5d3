-- ===== src/Services/Composites.antt =====
-- internal/app/fallback.go and internal/app/fanout.go: a state that falls back on an archive, and a
-- publisher to several targets. The parts are components of their own: a read is its result, and a
-- target is a function on a world.
pub mod Fallback
pub mod Delivery
use mcp_ironclaw.Prelude.{Bool, true, false, Option, none, some, List, [], ◌∷◌, if◌then◌else◌}
use mcp_ironclaw.Go.Text.{Text}
use mcp_ironclaw.Domain.Errors.{Error, Result, ok, err, is_device_not_found}
use mcp_ironclaw.Domain.Key.{DeviceState}
use mcp_ironclaw.Store.Memory.{DeviceListing}
use mcp_ironclaw.Services.Emission.{WindowPublisher, first_failure}

-- The answer of the archive, marked as stale, when the primary has failed with `e`.
abbrev pub archived_state : Error → Result DeviceState → Result DeviceState
archived_state e (err _) = err e
archived_state e (ok s) = ok (record s { stale = true })

-- fallbackState.DeviceState, from the answers of the primary and of the archive
unfoldable pub fallback_device_state : Result DeviceState → Result DeviceState → Result DeviceState
fallback_device_state (ok s) archive = ok s
fallback_device_state (err e) archive =
    if is_device_not_found e then err e else archived_state e archive

abbrev pub archived_listing : Error → Result DeviceListing → Result DeviceListing
archived_listing e (err _) = err e
archived_listing e (ok l) = ok (record l { stale = true })

-- fallbackState.UserDevices
unfoldable pub fallback_user_devices :
    Result DeviceListing → Result DeviceListing → Result DeviceListing
fallback_user_devices (ok l) archive = ok l
fallback_user_devices (err e) archive = archived_listing e archive

module _ {W : Type 0} where
  -- The loop of `PublishWindow`, with the first error so far.
  unfoldable pub fan_out_from : List (WindowPublisher W) → Option Error → WindowPublisher W
  fan_out_from [] first w x = (x, first)
  fan_out_from (t ∷ ts) first w x =
      let (x', result) = t w x in fan_out_from ts (first_failure first result) w x'

  -- fanOutWindows.PublishWindow
  unfoldable pub fan_out : List (WindowPublisher W) → WindowPublisher W
  fan_out targets = fan_out_from targets none
