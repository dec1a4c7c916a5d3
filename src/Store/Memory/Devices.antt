-- ===== src/Store/Memory/Devices.antt =====
-- What the methods of internal/store/memory.go do to the records of the devices.
use mathlib.Core.Option.{map}
use mcp_ironclaw.Store.Memory.Lifecycle.{Step}
use mcp_ironclaw.Prelude.{
  refl, Option-cases, ℕ, Option, ◌||◌, ap, true, ap, inr, inl, ◌≡◌, false, none, some, arith, ◌∙◌,
  Bool-cases, if◌then◌else◌,
}
use mcp_ironclaw.Go.Text.{is_empty, Text, text_eq_iff, text_eq, text_eq_refl}
use mcp_ironclaw.Go.Map.{find, put, get_or, find-put, string_eq}
use mcp_ironclaw.Domain.Key.{AggregateWindow, identity}
use mcp_ironclaw.Store.Memory.{
  metric_device_resets, device_not_found, increment, reject_if, ◌>>◌, Error, unwatch, watch_device,
  reset_device, slt, add64, Memory, apply_window, apply_known, known, count_window, device_key,
}
use mcp_ironclaw.Store.Memory.Records.{zeroed, DeviceRecord, add_counts, refresh, new_record}
use mcp_ironclaw.Store.Memory.Watchers.{watching, notify_all-IsNotified}

abbrev pub key_of_window : AggregateWindow → Text
key_of_window w = device_key w.user_id w.device_id

-- The record of a device after a window has been applied to it.
unfoldable pub fold_in : AggregateWindow → DeviceRecord → DeviceRecord
fold_in w r = if get_or (identity w) r.applied false then r else refresh w (add_counts w r)

-- The record that a method finds, or the one it starts from.
abbrev pub record_or_new : AggregateWindow → Memory → DeviceRecord
record_or_new w m = get_or (key_of_window w) m.devices (new_record w)

find-known :
    (w : AggregateWindow) (m : Memory) (key : Text)
    → find key (known w m).0.devices
      ≡ (if text_eq (key_of_window w) key then some (record_or_new w m) else find key m.devices)
unfolding known get_or
find-known w m key = ground (
  arith,
  find-put (key_of_window w) key (new_record w) m.devices,
  text_eq_iff (key_of_window w) key,
)

known-record : (w : AggregateWindow) (m : Memory) → (known w m).1 ≡ record_or_new w m
unfolding known get_or
known-record w m = ground arith

find-apply_known :
    (w : AggregateWindow) (m : Memory) (r : DeviceRecord) (key : Text)
    → find (key_of_window w) m.devices ≡ some r
    → find key (apply_known w (m, r)).0.devices
      ≡ (if text_eq (key_of_window w) key then some (fold_in w r) else find key m.devices)
unfolding apply_known fold_in
find-apply_known w m r key e = elim (Bool-cases (get_or (identity w) r.applied false)) [
  | inl f ↦ rw (f, apply_known) (ground (arith, text_eq_iff (key_of_window w) key))
  | inr f ↦
      let r' = refresh w (add_counts w r) in
      let m' = count_window w (record m { devices = put (key_of_window w) r' m.devices }) in
      let p = notify_all-IsNotified r'.state (watching (key_of_window w) m') m' in
      rw (f, apply_known) (ap (find key) p.devices ∙ find-put (key_of_window w) key r' m.devices)
]

-- Applying a window folds it into the record of its device and leaves every other device alone.
pub find-apply_window :
    (w : AggregateWindow) (m : Memory) (key : Text)
    → find key (apply_window none w m).0.devices ≡ (
        if text_eq (key_of_window w) key
        then some (fold_in w (record_or_new w m))
        else find key m.devices)
unfolding apply_window
find-apply_window w m key = ground (
  arith,
  find-apply_known w (known w m).0 (known w m).1 key,
  find-known w m key,
  find-known w m (key_of_window w),
  known-record w m,
  text_eq_refl (key_of_window w),
)

-- `refresh` touches neither the counts nor what has been applied.
refresh-counts :
    (w : AggregateWindow) (r : DeviceRecord)
    → ((refresh w r).state.count ≡ r.state.count)
      × ((refresh w r).state.error_count ≡ r.state.error_count)
      × ((refresh w r).state.bytes ≡ r.state.bytes)
      × ((refresh w r).applied ≡ r.applied)
unfolding refresh
refresh-counts w r = (ground arith, ground arith, ground arith, ground arith)

-- A window that has not been applied yet adds its counts and marks its identity.
pub fold_in_new :
    (w : AggregateWindow) (r : DeviceRecord)
    → get_or (identity w) r.applied false ≡ false
    → ((fold_in w r).state.count ≡ add64 r.state.count w.count)
      × ((fold_in w r).state.error_count ≡ add64 r.state.error_count w.error_count)
      × ((fold_in w r).state.bytes ≡ add64 r.state.bytes w.bytes)
      × ((fold_in w r).applied ≡ put (identity w) true r.applied)
unfolding fold_in add_counts
fold_in_new w r e =
    let (c, f, b, a) = refresh-counts w (add_counts w r) in rw (e, fold_in) (c, f, b, a)

pub fold_in_old :
    (w : AggregateWindow) (r : DeviceRecord)
    → get_or (identity w) r.applied false ≡ true
    → fold_in w r ≡ r
unfolding fold_in
fold_in_old w r e = ground arith

-- The last window of a device never goes back.
pub fold_in_advances :
    (w : AggregateWindow) (r : DeviceRecord)
    → slt (fold_in w r).state.last_window_id r.state.last_window_id ≡ false
unfolding fold_in refresh add_counts
fold_in_advances w r = ground arith

-- Whether a device has a record in which an identity is marked as applied.
abbrev pub IsApplied : Text → Text → Memory → Type 0
IsApplied i key m =
    (r : DeviceRecord) × (find key m.devices ≡ some r) × (get_or i r.applied false ≡ true)

pub fold_in-applied :
    (w : AggregateWindow) (r : DeviceRecord) (i : Text)
    → get_or i (fold_in w r).applied false ≡ (get_or i r.applied false || text_eq (identity w) i)
unfolding get_or
fold_in-applied w r i = elim (Bool-cases (get_or (identity w) r.applied false)) [
  | inl e ↦ ground (arith, fold_in_old w r e, text_eq_iff (identity w) i)
  | inr e ↦
      let (_, _, _, a) = fold_in_new w r e in
      ground (arith, find-put (identity w) i true r.applied, text_eq_iff (identity w) i)
]

IsApplied-after_window :
    (w : AggregateWindow) (m : Memory) (i key : Text)
    → IsApplied i key m
    → IsApplied i key (apply_window none w m).0
unfolding get_or
IsApplied-after_window w m i key (r, e, a) = elim (Bool-cases (text_eq (key_of_window w) key)) [
  | inr f ↦ (r, ground (arith, find-apply_window w m key), a)
  | inl f ↦ (
    fold_in w r,
    ground (arith, find-apply_window w m key, text_eq_iff (key_of_window w) key),
    ground (arith, fold_in-applied w r i),
  )
]

pub find-reset_device :
    (u d : Text) (m : Memory) (key : Text)
    → find key (reset_device none u d m).0.devices ≡ (
        if text_eq (device_key u d) key
        then map zeroed (find key m.devices)
        else find key m.devices)
unfolding reset_device
find-reset_device u d m key =
    let k = device_key u d in
    elim (Option-cases (find k m.devices)) [
      | inl e ↦ rw (e, reset_device) (ground (arith, text_eq_iff k key))
      | inr (r, e) ↦
          let r' = zeroed r in
          let m' = increment metric_device_resets 1 (record m { devices = put k r' m.devices }) in
          let p = notify_all-IsNotified r'.state (watching k m') m' in
          rw (e, reset_device)
            (ap (find key) p.devices
              ∙ ground (arith, find-put k key r' m.devices, text_eq_iff k key))
    ]

IsApplied-after_reset :
    (u d : Text) (m : Memory) (i key : Text)
    → IsApplied i key m
    → IsApplied i key (reset_device none u d m).0
IsApplied-after_reset u d m i key (r, e, a) = elim (Bool-cases (text_eq (device_key u d) key)) [
  | inr f ↦ (r, ground (arith, find-reset_device u d m key), a)
  | inl f ↦ (zeroed r, ground (arith, find-reset_device u d m key), a)
]

pub watch_device-devices :
    (ctx : Option Error) (u d : Text) (x : ℕ) (m : Memory)
    → (watch_device ctx u d x m).0.devices ≡ m.devices
unfolding watch_device
watch_device-devices ctx u d x m =
    elim (Option-cases (ctx >> reject_if (is_empty u || is_empty d) device_not_found)) [
      | inl e ↦ rw (e, watch_device) refl
      | inr (x, e) ↦ rw (e, watch_device) refl
    ]

IsApplied-after-Step :
    (m m' : Memory) → Step m m' → (i key : Text) → IsApplied i key m → IsApplied i key m'
unfolding apply_window reset_device unwatch
IsApplied-after-Step m _ (Step.applying (some e) w _) i key h = h
IsApplied-after-Step m _ (Step.applying none w _) i key h = IsApplied-after_window w m i key h
IsApplied-after-Step m _ (Step.resetting (some e) u d _) i key h = h
IsApplied-after-Step m _ (Step.resetting none u d _) i key h = IsApplied-after_reset u d m i key h
IsApplied-after-Step m _ (Step.watching_device ctx u d x _ fresh) i key (r, e, a) =
    (r, ap (find key) (watch_device-devices ctx u d x m) ∙ e, a)
IsApplied-after-Step m _ (Step.unwatching k x _ h') i key h = h
IsApplied-after-Step m _ (Step.receiving x w s rest _ e f) i key h = h
IsApplied-after-Step m _ (Step.counting name delta _) i key h = h

-- Any sequence of steps from a memory.
pub data Steps : Memory → Memory → Type 0 where
  done : {m : Memory} → Steps m m
  more : {m m' m'' : Memory} → Steps m m' → Step m' m'' → Steps m m''

IsApplied-after-Steps :
    (m m' : Memory) → Steps m m' → (i key : Text) → IsApplied i key m → IsApplied i key m'
IsApplied-after-Steps m _ Steps.done i key h = h
IsApplied-after-Steps m m'' (Steps.more {m' = m'} run s) i key h =
    IsApplied-after-Step m' m'' s i key (IsApplied-after-Steps m m' run i key h)

-- A window that has been applied once is never applied again: after any further calls, resets of
-- its device included, applying it again leaves the record of every device as it is.
pub redelivery_ignored :
    (w : AggregateWindow) (m m' : Memory)
    → Steps (apply_window none w m).0 m'
    → (key : Text) → find key (apply_window none w m').0.devices ≡ find key m'.devices
unfolding get_or
redelivery_ignored w m m' run key =
    let k = key_of_window w in
    let first = fold_in-applied w (record_or_new w m) (identity w) in
    let (r, e, a) = IsApplied-after-Steps (apply_window none w m).0 m' run (identity w) k (
      fold_in w (record_or_new w m),
      ground (arith, find-apply_window w m k, text_eq_refl k),
      ground (arith, text_eq_refl (identity w)),
    ) in
    ground (arith, find-apply_window w m' key, fold_in_old w r a, text_eq_iff k key)
