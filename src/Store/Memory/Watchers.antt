-- ===== src/Store/Memory/Watchers.antt =====
-- The watchers of internal/store/watch.go: no update is sent on a channel that is closed, and a
-- buffer never holds more than its eight updates.
use mcp_ironclaw.Prelude.{
  ◌≢◌, Option, ◌∙◌, inr, inl, ℕ, ◌≤◌, ◌≡◌, refl, true, false, none, some, List, [], ◌∷◌, ◌++◌, ◌==◌,
  ◌&&◌, ltb, ◌∙◌, arith, length, length-append, ==_iff, Option-cases, Bool-cases,
}
use mcp_ironclaw.Go.Text.{Text}
use mcp_ironclaw.Go.Map.{put, find, get_or, find-put, nat_eq, string_eq}
use mcp_ironclaw.Go.Map.Entries.{has}
use mcp_ironclaw.Domain.Key.{identity, AggregateWindow, DeviceState}
use mcp_ironclaw.Store.Memory.{
  metric_device_resets, metric_windows_duplicate, panic, count_window, increment, device_key,
  apply_known, apply_new, Error, known, apply_window, notify, reset_device, Memory, Watcher, offer,
  notify_all, watch_buffer,
}
use mcp_ironclaw.Store.Memory.Records.{zeroed, add_counts, refresh, DeviceRecord}

-- The watchers of a device.
abbrev pub watching : Text → Memory → List ℕ
watching key m = get_or key m.watchers []

-- A channel that can be sent on.
abbrev pub IsOpen : ℕ → Memory → Type 0
IsOpen x m = (w : Watcher) × (find x m.channels ≡ some w) × (w.closed ≡ false)

pub record IsLive (m : Memory) : Type 0 where
  pub all_open : (key : Text) (x : ℕ) → has x (watching key m) ≡ true → IsOpen x m
  pub one_key :
      (key key' : Text) (x : ℕ)
      → has x (watching key m) ≡ true
      → has x (watching key' m) ≡ true
      → key ≡ key'
  pub buffers : (x : ℕ) (w : Watcher) → find x m.channels ≡ some w → length w.updates ≤ watch_buffer

-- What a notification leaves as it was, whatever it does to the buffers and the metrics.
pub record IsNotified (m m' : Memory) : Type 0 where
  pub devices : m'.devices ≡ m.devices
  pub by_user : m'.by_user ≡ m.by_user
  pub watchers : m'.watchers ≡ m.watchers
  pub still_open : (x : ℕ) → IsOpen x m → IsOpen x m'
  pub bounded :
      ((x : ℕ) (w : Watcher) → find x m.channels ≡ some w → length w.updates ≤ watch_buffer)
      → (x : ℕ) (w : Watcher) → find x m'.channels ≡ some w
      → length w.updates ≤ watch_buffer

-- A channel keeps its `closed` flag while it is sent on.
offer-still-IsOpen :
    (s : DeviceState) (x y : ℕ) (m : Memory) → IsOpen y m → IsOpen y (offer s x m).0
unfolding offer
offer-still-IsOpen s x y m (w, e, c) =
    elim (Bool-cases (x == y && ltb (length w.updates) watch_buffer)) [
      | inl h ↦ (
        record w { updates = w.updates ++ s ∷ [] },
        ground (
          arith,
          ==_iff x y,
          find-put x y (record w { updates = w.updates ++ s ∷ [] }) m.channels,
        ),
        c,
      )
      | inr h ↦ elim (Option-cases (find x m.channels)) [
        | inl n ↦ (w, ground arith, c)
        | inr (v, f) ↦ (
          w,
          ground (
            arith,
            ==_iff x y,
            find-put x y (record v { updates = v.updates ++ s ∷ [] }) m.channels,
          ),
          c,
        )
      ]
    ]

offer-bounded :
    (s : DeviceState) (x y : ℕ) (m : Memory)
    → ((y : ℕ) (w : Watcher) → find y m.channels ≡ some w → length w.updates ≤ watch_buffer)
    → (w : Watcher) → find y (offer s x m).0.channels ≡ some w
    → length w.updates ≤ watch_buffer
unfolding offer
offer-bounded s x y m h w e = elim (Option-cases (find x m.channels)) [
  | inl n ↦ ground (arith, h y w)
  | inr (v, f) ↦ ground (
    arith,
    h y w,
    find-put x y (record v { updates = v.updates ++ s ∷ [] }) m.channels,
    length-append v.updates (s ∷ []),
  )
]

offer-IsNotified : (s : DeviceState) (x : ℕ) (m : Memory) → IsNotified m (offer s x m).0
unfolding offer
offer-IsNotified s x m = record {
  devices = ground arith;
  by_user = ground arith;
  watchers = ground arith;
  still_open = λ y. offer-still-IsOpen s x y m;
  bounded = λ h y. offer-bounded s x y m h;
}

offer-none : (s : DeviceState) (x : ℕ) (m : Memory) → IsOpen x m → (offer s x m).1 ≡ none
unfolding offer
offer-none s x m (w, e, c) = ground arith

IsNotified-trans : (m m' m'' : Memory) → IsNotified m m' → IsNotified m' m'' → IsNotified m m''
IsNotified-trans m m' m'' p q = record {
  devices = q.devices ∙ p.devices;
  by_user = q.by_user ∙ p.by_user;
  watchers = q.watchers ∙ p.watchers;
  still_open = λ y o. q.still_open y (p.still_open y o);
  bounded = λ h. q.bounded (p.bounded h);
}

pub notify_all-IsNotified :
    (s : DeviceState) (xs : List ℕ) (m : Memory) → IsNotified m (notify_all s xs m).0
unfolding notify_all
notify_all-IsNotified s [] m = record {
  devices = refl;
  by_user = refl;
  watchers = refl;
  still_open = λ y o. o;
  bounded = λ h. h;
}
notify_all-IsNotified s (x ∷ xs) m =
    let (m', failure) = offer s x m in
    let p = offer-IsNotified s x m in
    elim (Option-cases failure) [
      | inr (e, f) ↦ rw (f, notify_all) p
      | inl f ↦
          rw (f, notify_all)
            (IsNotified-trans m m' (notify_all s xs m').0 p (notify_all-IsNotified s xs m'))
    ]

notify_all-none :
    (s : DeviceState) (xs : List ℕ) (m : Memory)
    → ((x : ℕ) → has x xs ≡ true → IsOpen x m)
    → (notify_all s xs m).1 ≡ none
unfolding notify_all has
notify_all-none s [] m h = refl
notify_all-none s (x ∷ xs) m h =
    let (m', failure) = offer s x m in
    let none_here = offer-none s x m (h x (ground (arith, ==_iff x x))) in
    let still = (offer-IsNotified s x m).still_open in
    rw (none_here, notify_all) (notify_all-none s xs m' (λ y e. still y (h y (ground arith))))

pub IsLive-same :
    (m m' : Memory) → m'.watchers ≡ m.watchers → m'.channels ≡ m.channels → IsLive m → IsLive m'
IsLive-same m m' ws cs live = record {
  all_open = λ key x h. let (w, e, c) = live.all_open key x (ground arith) in (w, ground arith, c);
  one_key = λ key key' x h h'. live.one_key key key' x (ground arith) (ground arith);
  buffers = λ x w e. live.buffers x w (ground arith);
}

IsNotified-IsLive : (m m' : Memory) → IsNotified m m' → IsLive m → IsLive m'
IsNotified-IsLive m m' p live =
    let same = p.watchers in
    record {
      all_open = λ key x h. p.still_open x (live.all_open key x (ground arith));
      one_key = λ key key' x h h'. live.one_key key key' x (ground arith) (ground arith);
      buffers = p.bounded live.buffers;
    }

-- A notification in a live memory reaches no closed channel, and leaves it live.
notify-IsLive :
    (s : DeviceState) (key : Text) (m : Memory)
    → IsLive m
    → (IsLive (notify key s m).0) × ((notify key s m).1 ≡ none)
notify-IsLive s key m live = (
  IsNotified-IsLive m (notify key s m).0 (notify_all-IsNotified s (watching key m) m) live,
  notify_all-none s (watching key m) m (live.all_open key),
)

known_same :
    (w : AggregateWindow) (m : Memory)
    → ((known w m).0.watchers ≡ m.watchers) × ((known w m).0.channels ≡ m.channels)
unfolding known
known_same w m = (ground arith, ground arith)

apply_new-IsLive :
    (w : AggregateWindow) (r : DeviceRecord) (m : Memory)
    → IsLive m
    → (IsLive (apply_new w r m).0) × ((apply_new w r m).1 ≡ none)
apply_new-IsLive w r m live =
    let key = device_key w.user_id w.device_id in
    let m' = count_window w (record m { devices = put key r m.devices }) in
    notify-IsLive r.state key m' (IsLive-same m m' refl refl live)

apply_known-IsLive :
    (w : AggregateWindow) (m : Memory) (r : DeviceRecord)
    → IsLive m
    → (IsLive (apply_known w (m, r)).0) × ((apply_known w (m, r)).1 ≡ none)
unfolding apply_known
apply_known-IsLive w m r live = elim (Bool-cases (get_or (identity w) r.applied false)) [
  | inl e ↦
      rw (e, apply_known)
        (IsLive-same m (increment metric_windows_duplicate 1 m) refl refl live, refl)
  | inr e ↦ rw (e, apply_known) (apply_new-IsLive w (refresh w (add_counts w r)) m live)
]

pub apply_window-IsLive :
    (ctx : Option Error) (w : AggregateWindow) (m : Memory)
    → IsLive m
    → (IsLive (apply_window ctx w m).0) × ((apply_window ctx w m).1 ≡ ctx)
unfolding apply_window
apply_window-IsLive (some e) w m live = (live, refl)
apply_window-IsLive none w m live =
    let (ws, cs) = known_same w m in
    apply_known-IsLive w (known w m).0 (known w m).1 (IsLive-same m (known w m).0 ws cs live)

pub reset_device-IsLive :
    (ctx : Option Error) (u d : Text) (m : Memory)
    → IsLive m
    → (IsLive (reset_device ctx u d m).0) × (ctx ≡ none → (reset_device ctx u d m).1 ≢ some panic)
unfolding reset_device
reset_device-IsLive (some e) u d m live = (live, λ h. cc)
reset_device-IsLive none u d m live = elim (Option-cases (find (device_key u d) m.devices)) [
  | inl e ↦ rw (e, reset_device) (live, λ h. ground arith)
  | inr (r, e) ↦
      let m' =
        increment metric_device_resets 1
          (record m { devices = put (device_key u d) (zeroed r) m.devices }) in
      let (live', quiet) =
        notify-IsLive (zeroed r).state (device_key u d) m' (IsLive-same m m' refl refl live) in
      rw (e, reset_device) (live', λ h. rw quiet (ground arith))
]
