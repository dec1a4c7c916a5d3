-- ===== src/Store/Memory.antt =====
-- internal/store/memory.go and internal/store/watch.go: the state of the devices, their watchers and
-- the metrics. A watcher is a pointer: an address into `channels`, which holds its buffer. A method
-- takes the error of its context; the mutex is left out, since a method holds it from its first
-- read of the state to its last write.
pub mod Records
pub mod Watchers
pub mod Subscriptions
pub mod Lifecycle
pub mod Devices
pub mod Tenants
pub mod Ledger
pub mod Listing
mod Examples
use mcp_ironclaw.Prelude.{
  ◌||◌, not, select, ℕ, Bool, true, false, Option, none, some, List, [], ◌∷◌, ◌++◌, ltb, ◌==◌,
  if◌then◌else◌, length,
}
use mcp_ironclaw.Go.Int64.{add64, slt}
use mcp_ironclaw.Go.Time
use mcp_ironclaw.Go.Text.{text_lt, is_empty, Text, codes}
use mcp_ironclaw.Go.Map.{remove, Map, find, put, get_or, nat_eq, string_eq}
use mcp_ironclaw.Go.Map.Entries.{keys}
use mcp_ironclaw.Go.Sort.{sort_by}
use mcp_ironclaw.Domain.Errors.{ok, reject_if, ◌>>◌, err, device_not_found, Result, Error, panic}
use mcp_ironclaw.Domain.Key.{AggregateWindow, DeviceState, identity}
use mcp_ironclaw.Store.Memory.Records.{DeviceRecord, new_record, add_counts, refresh, zeroed}

abbrev pub metric_windows_applied : Text
metric_windows_applied = codes "windows_applied"

abbrev pub metric_windows_duplicate : Text
metric_windows_duplicate = codes "windows_duplicate"

abbrev pub metric_events_counted : Text
metric_events_counted = codes "events_counted"

abbrev pub metric_errors_counted : Text
metric_errors_counted = codes "errors_counted"

abbrev pub metric_device_resets : Text
metric_device_resets = codes "device_resets"

abbrev pub metric_watch_dropped : Text
metric_watch_dropped = codes "watch_updates_dropped"

abbrev pub watch_buffer : ℕ
watch_buffer = 8

-- A watcher with its channel: what the channel buffers, and whether it is closed.
pub record Watcher : Type 0 where
  pub updates : List DeviceState
  pub closed : Bool

pub record Memory : Type 0 where
  pub devices : Map Text DeviceRecord
  pub by_user : Map Text (Map Text Bool)
  pub metrics : Map Text ℕ
  pub watchers : Map Text (List ℕ)
  pub channels : Map ℕ Watcher

abbrev pub new_memory : Memory
new_memory = record { devices = []; by_user = []; metrics = []; watchers = []; channels = [] }

unfoldable pub device_key : Text → Text → Text
device_key user device = b'{' ∷ user ++ b'}' ∷ b':' ∷ device

-- m.metrics[name] += delta
abbrev pub increment : Text → ℕ → Memory → Memory
increment name delta m = record m {
  metrics = put name (add64 (get_or name m.metrics 0) delta) m.metrics;
}

-- The value of a metric.
abbrev pub metric : Text → Memory → ℕ
metric name m = get_or name m.metrics 0

-- The `select` of `notify`: a send that does not wait. A send on a closed channel panics.
unfoldable pub offer : DeviceState → ℕ → Memory → Memory × Option Error
offer s address m = elim (find address m.channels) [
  | none ↦ (m, some panic)
  | some w ↦
      if w.closed
      then (m, some panic)
      else if ltb (length w.updates) watch_buffer
      then (
        record m { channels = put address (record w { updates = w.updates ++ s ∷ [] }) m.channels },
        none,
      )
      else (increment metric_watch_dropped 1 m, none)
]

unfoldable pub notify_all : DeviceState → List ℕ → Memory → Memory × Option Error
notify_all s [] m = (m, none)
notify_all s (x ∷ xs) m =
    let (m', failure) = offer s x m in
    elim failure [ none ↦ notify_all s xs m' | some e ↦ (m', some e) ]

abbrev pub notify : Text → DeviceState → Memory → Memory × Option Error
notify key s m = notify_all s (get_or key m.watchers []) m

-- The insertion into `byUser` for a device that is new.
abbrev pub register : AggregateWindow → Memory → Memory
register w m = record m {
  devices = put (device_key w.user_id w.device_id) (new_record w) m.devices;
  by_user = put w.user_id (put w.device_id true (get_or w.user_id m.by_user [])) m.by_user;
}

-- The record of the window's device, made if there is none.
unfoldable pub known : AggregateWindow → Memory → Memory × DeviceRecord
known w m = elim (find (device_key w.user_id w.device_id) m.devices) [
  | some r ↦ (m, r)
  | none ↦ (register w m, new_record w)
]

-- The end of `ApplyWindow`: the three metrics and the watchers.
abbrev pub count_window : AggregateWindow → Memory → Memory
count_window w m =
    increment metric_errors_counted w.error_count
      (increment metric_events_counted w.count (increment metric_windows_applied 1 m))

abbrev pub apply_new : AggregateWindow → DeviceRecord → Memory → Memory × Option Error
apply_new w r m =
    let key = device_key w.user_id w.device_id in
    notify key r.state (count_window w (record m { devices = put key r m.devices }))

-- The body of `ApplyWindow` for a device that has a record.
unfoldable pub apply_known : AggregateWindow → Memory × DeviceRecord → Memory × Option Error
apply_known w (m, r) =
    if get_or (identity w) r.applied false
    then (increment metric_windows_duplicate 1 m, none)
    else apply_new w (refresh w (add_counts w r)) m

unfoldable pub apply_window : Option Error → AggregateWindow → Memory → Memory × Option Error
apply_window ctx w m = elim ctx [ some e ↦ (m, some e) | none ↦ apply_known w (known w m) ]

unfoldable pub reset_device : Option Error → Text → Text → Memory → Memory × Option Error
reset_device ctx user device m =
    let key = device_key user device in
    elim ctx [
      | some e ↦ (m, some e)
      | none ↦ elim (find key m.devices) [
        | none ↦ (m, some device_not_found)
        | some r ↦
            notify key (zeroed r).state (
              increment metric_device_resets 1
                (record m { devices = put key (zeroed r) m.devices }))
      ]
    ]

unfoldable pub device_state : Option Error → Text → Text → Memory → Result DeviceState
device_state ctx user device m = elim ctx [
  | some e ↦ err e
  | none ↦ elim (find (device_key user device) m.devices) [
    | none ↦ err device_not_found
    | some r ↦ ok r.state
  ]
]

-- domain.DeviceListing
pub record DeviceListing : Type 0 where
  pub devices : List Text
  pub stale : Bool

unfoldable pub user_devices : Option Error → Text → Memory → Result DeviceListing
user_devices ctx user m = elim ctx [
  | some e ↦ err e
  | none ↦
      ok (record { devices = sort_by text_lt (keys (get_or user m.by_user [])); stale = false })
]

unfoldable pub copy_all : Map Text ℕ → Map Text ℕ → Map Text ℕ
copy_all [] out = out
copy_all ((name, v) ∷ rest) out = copy_all rest (put name v out)

-- The copy of the metrics, in the iteration order.
unfoldable pub pipeline_metrics : Option Error → Memory → Result (Map Text ℕ)
pipeline_metrics ctx m = elim ctx [ some e ↦ err e | none ↦ ok (copy_all m.metrics []) ]

-- The watcher is allocated at an address that the caller of the model picks.
unfoldable pub watch_device : Option Error → Text → Text → ℕ → Memory → Memory × Result ℕ
watch_device ctx user device address m =
    elim (ctx >> reject_if (is_empty user || is_empty device) device_not_found) [
      | some e ↦ (m, err e)
      | none ↦
          let key = device_key user device in
          (
            record m {
              channels = put address (record { updates = []; closed = false }) m.channels;
              watchers = put key (get_or key m.watchers [] ++ address ∷ []) m.watchers;
            },
            ok address,
          )
    ]

-- The watchers that `unwatch` keeps.
abbrev pub remaining : Text → ℕ → Memory → List ℕ
remaining key address m = select (λ x. not (x == address)) (get_or key m.watchers [])

-- if len(remaining) == 0 { delete(m.watchers, key) } else { m.watchers[key] = remaining }
unfoldable pub set_watchers : Text → List ℕ → Map Text (List ℕ) → Map Text (List ℕ)
set_watchers key [] ws = remove key ws
set_watchers key (x ∷ xs) ws = put key (x ∷ xs) ws

-- if !subscriber.closed { … }: the channel is closed once.
unfoldable pub close_channel : ℕ → Map ℕ Watcher → Map ℕ Watcher
close_channel address cs = elim (find address cs) [
  | none ↦ cs
  | some w ↦ if w.closed then cs else put address (record w { closed = true }) cs
]

unfoldable pub unwatch : Text → ℕ → Memory → Memory
unwatch key address m = record m {
  watchers = set_watchers key (remaining key address m) m.watchers;
  channels = close_channel address m.channels;
}
