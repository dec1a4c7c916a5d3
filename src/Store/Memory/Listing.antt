-- ===== src/Store/Memory/Listing.antt =====
-- The listing of a user's devices in internal/store/memory.go agrees with the device states.
use mcp_ironclaw.Prelude.{
  ℕ, inr, inl, ◌≡◌, refl, ◌≢◌, Bool, true, false, ◌&&◌, ◌||◌, Option, none, some, List, [], ◌∷◌,
  arith, sym, subst, Option-cases, Bool-cases,
}
use mcp_ironclaw.Go.Text.{is_empty, text_eq_refl, Text, text_eq_iff, text_eq, text_lt}
use mcp_ironclaw.Go.Map.{Map, find, put, get_or, find-put, string_eq}
use mcp_ironclaw.Go.Map.Entries.{has, keys}
use mcp_ironclaw.Go.Sort.{IsSorted, sort_by-IsSorted, text_lt-IsOrder, has-sort_by}
use mcp_ironclaw.Domain.Errors.{device_not_found, reject_if, ◌>>◌, Error, ok}
use mcp_ironclaw.Domain.Key.{identity, AggregateWindow, DeviceState}
use mcp_ironclaw.Store.Memory.{
  metric_device_resets, DeviceListing, Memory, apply_window, apply_known, known, reset_device,
  device_state, user_devices, watch_device, unwatch, device_key, increment, count_window,
}
use mcp_ironclaw.Store.Memory.Records.{zeroed, refresh, add_counts, DeviceRecord}
use mcp_ironclaw.Store.Memory.Watchers.{watching, notify_all-IsNotified}
use mcp_ironclaw.Store.Memory.Lifecycle.{Step, Reachable}
use mcp_ironclaw.Store.Memory.Devices.{
  find-apply_window, find-reset_device, key_of_window, watch_device-devices,
}

-- The devices registered for a user.
abbrev pub registered : Text → Memory → List Text
registered u m = keys (get_or u m.by_user [])

has-keys-put :
    (d e : Text) (v : Bool) (ds : Map Text Bool)
    → has e (keys (put d v ds)) ≡ (has e (keys ds) || text_eq d e)
unfolding has put
has-keys-put d e v [] = ground arith
has-keys-put d e v ((k, w) ∷ ds) =
    ground (arith, has-keys-put d e v ds, text_eq_iff k d, text_eq_iff k e, text_eq_iff d e)

-- Applying a window registers its device at most.
apply_known-by_user :
    (w : AggregateWindow) (m : Memory) (r : DeviceRecord)
    → (apply_known w (m, r)).0.by_user ≡ m.by_user
unfolding apply_known
apply_known-by_user w m r = elim (Bool-cases (get_or (identity w) r.applied false)) [
  | inl f ↦ rw (f, apply_known) refl
  | inr f ↦
      let r' = refresh w (add_counts w r) in
      let m' = count_window w (record m { devices = put (key_of_window w) r' m.devices }) in
      rw (f, apply_known)
        (notify_all-IsNotified r'.state (watching (key_of_window w) m') m').by_user
]

registered-known :
    (w : AggregateWindow) (m : Memory) (u d : Text)
    → has d (registered u (known w m).0) ≡ true
    → (has d (registered u m) || (text_eq w.user_id u && text_eq w.device_id d)) ≡ true
unfolding known get_or
registered-known w m u d h = elim (Option-cases (find (key_of_window w) m.devices)) [
  | inr (r, e) ↦ ground arith
  | inl e ↦
      let ds = get_or w.user_id m.by_user [] in
      ground (
        arith,
        find-put w.user_id u (put w.device_id true ds) m.by_user,
        has-keys-put w.device_id d true ds,
        text_eq_iff w.user_id u,
      )
]

registered-apply :
    (w : AggregateWindow) (m : Memory) (u d : Text)
    → has d (registered u (apply_window none w m).0) ≡ true
    → (has d (registered u m) || (text_eq w.user_id u && text_eq w.device_id d)) ≡ true
unfolding apply_window
registered-apply w m u d h = registered-known w m u d (
    subst (λ b. has d (keys (get_or u b [])) ≡ true)
      (apply_known-by_user w (known w m).0 (known w m).1) h)

-- A device that is listed has a record.
abbrev pub IsListed : Memory → Type 0
IsListed m = (u d : Text) → has d (registered u m) ≡ true → find (device_key u d) m.devices ≢ none

applied-IsListed :
    (w : AggregateWindow) (m : Memory) → IsListed m → IsListed (apply_window none w m).0
applied-IsListed w m listed u d h = ground (
  arith,
  registered-apply w m u d h,
  listed u d,
  find-apply_window w m (device_key u d),
  text_eq_iff w.user_id u,
  text_eq_iff w.device_id d,
  text_eq_refl (key_of_window w),
)

reset_device-by_user : (u d : Text) (m : Memory) → (reset_device none u d m).0.by_user ≡ m.by_user
unfolding reset_device
reset_device-by_user u d m = elim (Option-cases (find (device_key u d) m.devices)) [
  | inl e ↦ rw (e, reset_device) refl
  | inr (r, e) ↦
      let r' = zeroed r in
      let m' =
        increment metric_device_resets 1
          (record m { devices = put (device_key u d) r' m.devices }) in
      rw (e, reset_device)
        (notify_all-IsNotified r'.state (watching (device_key u d) m') m').by_user
]

watch_device-by_user :
    (ctx : Option Error) (u d : Text) (x : ℕ) (m : Memory)
    → (watch_device ctx u d x m).0.by_user ≡ m.by_user
unfolding watch_device
watch_device-by_user ctx u d x m =
    elim (Option-cases (ctx >> reject_if (is_empty u || is_empty d) device_not_found)) [
      | inl e ↦ rw (e, watch_device) refl
      | inr (x, e) ↦ rw (e, watch_device) refl
    ]

-- A step that registers nothing and forgets no record.
IsListed-kept :
    (m m' : Memory)
    → m'.by_user ≡ m.by_user
    → ((key : Text) → find key m.devices ≢ none → find key m'.devices ≢ none)
    → IsListed m
    → IsListed m'
IsListed-kept m m' same kept listed u d h =
    kept (device_key u d) (listed u d (subst (λ b. has d (keys (get_or u b [])) ≡ true) same h))

Step-IsListed : (m m' : Memory) → Step m m' → IsListed m → IsListed m'
unfolding apply_window reset_device unwatch
Step-IsListed m _ (Step.applying (some e) w _) h = h
Step-IsListed m _ (Step.applying none w _) h = applied-IsListed w m h
Step-IsListed m _ (Step.resetting (some e) u d _) h = h
Step-IsListed m _ (Step.resetting none u d _) h =
    IsListed-kept m (reset_device none u d m).0 (reset_device-by_user u d m)
      (λ key p. ground (arith, find-reset_device u d m key)) h
Step-IsListed m _ (Step.watching_device ctx u d x _ fresh) h =
    IsListed-kept m (watch_device ctx u d x m).0 (watch_device-by_user ctx u d x m)
      (λ key p. subst (λ ds. find key ds ≢ none) (sym (watch_device-devices ctx u d x m)) p) h
Step-IsListed m _ (Step.unwatching k x _ h') h = h
Step-IsListed m _ (Step.receiving x w s rest _ e f) h = h
Step-IsListed m _ (Step.counting name delta _) h = h

Reachable-IsListed : (m : Memory) → Reachable m → IsListed m
unfolding get_or find has
Reachable-IsListed _ Reachable.new = λ u d h. cc
Reachable-IsListed m (Reachable.step {m = m0} r s) = Step-IsListed m0 m s (Reachable-IsListed m0 r)

-- In every memory that the methods reach, the listing of a user is in order, and the state of every
-- device that it names can be read.
pub listed_devices_readable :
    (m : Memory) (u : Text) (listing : DeviceListing)
    → Reachable m
    → user_devices none u m ≡ ok listing
    → IsSorted text_lt listing.devices
      × ((d : Text)
          → has d listing.devices ≡ true
          → (s : DeviceState) × (device_state none u d m ≡ ok s))
unfolding user_devices device_state
listed_devices_readable m u listing r e =
    let ds = registered u m in
    let sorted = sort_by-IsSorted text_lt text_lt-IsOrder ds in
    (
      ground arith,
      λ d h. elim (Option-cases (find (device_key u d) m.devices)) [
        | inl n ↦ absurd (Reachable-IsListed m r u d (ground (arith, has-sort_by text_lt d ds)) n)
        | inr (v, f) ↦ (v.state, ground arith)
      ],
    )
