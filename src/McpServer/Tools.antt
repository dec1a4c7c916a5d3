-- ===== src/McpServer/Tools.antt =====
-- internal/mcpserver/tools.go. The readers, the publisher and the watcher are components of their
-- own: functions on a world. An optional one may be absent. The text of an instant in an output is
-- left out: `last_seen` is the instant, and `none` where the source has the empty text.
use mcp_ironclaw.Prelude.{
  take, leb, not, List, true, ℕ, Bool, false, ◌||◌, Option, none, some, [], ◌∷◌, ltb, ◌==◌,
  if◌then◌else◌, length,
}
use mcp_ironclaw.Go.Int64.{slt, is_positive}
use mcp_ironclaw.Go.Time
use mcp_ironclaw.Go.Map.{Map}
use mcp_ironclaw.Go.Text.{Text, is_empty}
use mcp_ironclaw.Domain.Errors.{
  unauthenticated, forbidden, no_metrics_reader, no_device_lister, Error, Result, ok, err, ◌>>◌,
  reject_if, missing_user, missing_device, identifier_too_long, identifier_invalid,
  device_not_found, is_device_not_found,
}
use mcp_ironclaw.Domain.Key.{DeviceState}
use mcp_ironclaw.Domain.Command.{Command}
use mcp_ironclaw.Store.Memory.{DeviceListing}
use mcp_ironclaw.McpServer.Principal.{scope_admin, has_scope, principal_from, Context, authorise}

abbrev pub default_device_limit : ℕ
default_device_limit = 500

abbrev pub max_device_limit : ℕ
max_device_limit = 5000

abbrev pub max_identifier_bytes : ℕ
max_identifier_bytes = 256

-- The loop of `validateIdentifier`. A rune below 128 is a byte of its own, and no byte of another
-- rune is below 128.
abbrev pub has_control : Text → Bool
has_control [] = false
has_control (b ∷ s) = ltb b 32 || b == 127 || has_control s

abbrev pub validate_identifier : Text → Option Error
validate_identifier value =
    reject_if (ltb max_identifier_bytes (length value)) identifier_too_long
    >> reject_if (has_control value) identifier_invalid

pub record Tools (W : Type 0) : Type 0 where
  pub state : Context → Text → Text → W → W × Result DeviceState
  pub devices : Option (Context → Text → W → W × Result DeviceListing)
  pub metrics : Option (Context → W → W × Result (Map Text ℕ))
  pub commands : Option (Context → Command → W → W × Option Error)
  pub watcher : Option (Context → Text → Text → W → W × Option Error)
  pub require_auth : Bool
  pub watch_slots : ℕ  -- the capacity of the channel

pub record DeviceStateOutput : Type 0 where
  pub user_id : Text
  pub device_id : Text
  pub count : ℕ
  pub error_count : ℕ
  pub bytes : ℕ
  pub p95_nanos : ℕ
  pub p99_nanos : ℕ
  pub last_window_id : ℕ
  pub last_seen : Option ℕ
  pub stale : Bool

abbrev pub state_output : DeviceState → DeviceStateOutput
state_output s = record {
  user_id = s.user_id;
  device_id = s.device_id;
  count = s.count;
  error_count = s.error_count;
  bytes = s.bytes;
  p95_nanos = s.p95_nanos;
  p99_nanos = s.p99_nanos;
  last_window_id = s.last_window_id;
  last_seen = if Time.is_zero s.last_seen then none else some s.last_seen;
  stale = s.stale;
}

abbrev pub translate_read_error : Error → Error
translate_read_error e = if is_device_not_found e then device_not_found else e

abbrev pub state_result : Result DeviceState → Result DeviceStateOutput
state_result (ok s) = ok (state_output s)
state_result (err e) = err (translate_read_error e)

-- The checks that a tool makes of a user and a device.
abbrev pub check_device : Text → Text → Option Error
check_device user device =
    reject_if (is_empty user) missing_user >> reject_if (is_empty device) missing_device

abbrev pub check_identifiers : Text → Text → Option Error
check_identifiers user device = validate_identifier user >> validate_identifier device

-- A component that is not configured.
abbrev pub absent {ℓ} : {A : Type ℓ} → Option A → Error → Option Error
absent (some a) e = none
absent none e = some e

module _ {W : Type 0} (t : Tools W) where
  unfoldable pub check_state : Context → Text → Text → Option Error
  check_state ctx user device =
      check_device user device >> check_identifiers user device >> authorise t.require_auth ctx user

  -- Tools.DeviceState
  unfoldable pub device_state : Context → Text → Text → W → W × Result DeviceStateOutput
  device_state ctx user device x =
      let (x', result) = t.state ctx user device x in
      elim (check_state ctx user device) [ some e ↦ (x, err e) | none ↦ (x', state_result result) ]

-- The limit that `capDevices` applies.
abbrev pub device_limit : ℕ → ℕ
device_limit requested =
    let limit = if is_positive requested then requested else default_device_limit in
    if slt max_device_limit limit then max_device_limit else limit

unfoldable pub cap_devices : List Text → ℕ → List Text × Bool
cap_devices devices requested =
    let limit = device_limit requested in
    if leb (length devices) limit then (devices, false) else (take limit devices, true)

pub record UserDevicesOutput : Type 0 where
  pub user_id : Text
  pub devices : List Text
  pub count : ℕ
  pub truncated : Bool
  pub stale : Bool

abbrev pub listing_result : Text → ℕ → Result DeviceListing → Result UserDevicesOutput
listing_result user limit (err e) = err e
listing_result user limit (ok l) =
    let (devices, truncated) = cap_devices l.devices limit in
    ok (record {
      user_id = user;
      devices = devices;
      count = length devices;
      truncated = truncated;
      stale = l.stale;
    })

module _ {W : Type 0} (t : Tools W) where
  unfoldable pub check_listing : Context → Text → Option Error
  check_listing ctx user =
      reject_if (is_empty user) missing_user
      >> validate_identifier user
      >> absent t.devices no_device_lister
      >> authorise t.require_auth ctx user

  abbrev pub list_with :
      Option (Context → Text → W → W × Result DeviceListing)
      → Context
      → Text
      → W
      → W × Result DeviceListing
  list_with (some read) ctx user x = read ctx user x
  list_with none ctx user x = (x, err no_device_lister)

  -- Tools.UserDevices
  unfoldable pub user_devices : Context → Text → ℕ → W → W × Result UserDevicesOutput
  user_devices ctx user limit x =
      let (x', result) = list_with t.devices ctx user x in
      elim (check_listing ctx user) [
        | some e ↦ (x, err e)
        | none ↦ (x', listing_result user limit result)
      ]

  -- The principal's right to the metrics of the fleet.
  unfoldable pub authorise_metrics : Context → Option Error
  authorise_metrics ctx = elim (principal_from ctx) [
    | some p ↦ reject_if (not (has_scope scope_admin p.scopes)) forbidden
    | none ↦ reject_if t.require_auth unauthenticated
  ]

  -- Tools.PipelineMetrics
  unfoldable pub pipeline_metrics : Context → W → W × Result (Map Text ℕ)
  pipeline_metrics ctx x = elim (t.metrics) [
    | none ↦ (x, err no_metrics_reader)
    | some read ↦
        let answer = read ctx x in
        elim (authorise_metrics ctx) [ some e ↦ (x, err e) | none ↦ answer ]
  ]
