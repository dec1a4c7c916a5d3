-- ===== src/Store/Memory/Examples.antt =====
-- The theorems on the store in memory at concrete deliveries.
use mcp_ironclaw.Prelude.{
  false, false, ◌≡◌, refl, ◌≢◌, ◌+◌, ◌*◌, Option, none, some, [], ◌∷◌, arith, ℕ, ◌≤◌, length,
}
use mcp_ironclaw.Go.Text.{Text, codes, text_eq}
use mcp_ironclaw.Go.Time.{epoch}
use mcp_ironclaw.Go.Strconv.{format_int}
use mcp_ironclaw.Go.Map.{find, put, get_or, string_eq, nat_eq, total}
use mcp_ironclaw.Domain.Errors.{Error, panic, ok}
use mcp_ironclaw.Domain.Key.{AggregateWindow, DeviceState, identity, append}
use mcp_ironclaw.Store.Memory.{
  Memory, Watcher, new_memory, apply_window, apply_known, known, offer, notify_all, watch_buffer,
  device_key, device_state, reset_device, watch_device,
}
use mcp_ironclaw.Store.Memory.Records.{refresh, add_counts}
use mcp_ironclaw.Store.Memory.Lifecycle.{Step, Reachable, Reachable-never_panics}
use mcp_ironclaw.Store.Memory.Devices.{Steps, redelivery_ignored, fold_in, record_or_new}
use mcp_ironclaw.Store.Memory.Tenants.{tenants_separate, tenants_share_state}
use mcp_ironclaw.Store.Memory.Ledger.{apply_all, ledger_of, counts_refine_ledger}

abbrev window : Text → Text → ℕ → ℕ → AggregateWindow
window user device window_id count = record {
  key = record { user_id = user; device_id = device; process_id = 7; pod_id = codes "p" };
  window_id = window_id;
  sequence = window_id;
  window_start = epoch + window_id * 10;
  window_end = epoch + window_id * 10 + 10;
  count = count;
  error_count = 1;
  bytes = 100 * count;
  p95_nanos = 5;
  p99_nanos = 6;
  max_nanos = 7;
}

abbrev u : Text
u = codes "u"

abbrev d : Text
d = codes "d"

abbrev first : AggregateWindow
first = window u d 1 3

abbrev second : AggregateWindow
second = window u d 2 4

-- A memory that is watched before the first window arrives.
abbrev watched : Memory
watched = (watch_device none u d 0 new_memory).0

watched-Reachable : Reachable watched
unfolding find
watched-Reachable = Reachable.step Reachable.new (Step.watching_device none u d 0 new_memory refl)

Reachable-never_panics_example :
    ((ctx : Option Error) (w : AggregateWindow) → (apply_window ctx w watched).1 ≡ ctx)
    × ((user device : Text) → (reset_device none user device watched).1 ≢ some panic)
    × ((x : ℕ) (w : Watcher) → find x watched.channels ≡ some w → length w.updates ≤ watch_buffer)
Reachable-never_panics_example = Reachable-never_panics watched watched-Reachable

-- The first window, delivered again after a reset of its device.
abbrev reset_memory : Memory
reset_memory = (reset_device none u d (apply_window none first watched).0).0

redelivery_ignored_example :
    find (device_key u d) (apply_window none first reset_memory).0.devices
    ≡ find (device_key u d) reset_memory.devices
redelivery_ignored_example =
    redelivery_ignored first watched reset_memory
      (Steps.more Steps.done (Step.resetting none u d (apply_window none first watched).0))
      (device_key u d)

tenants_separate_example :
    (device_state none (codes "v") d (apply_window none first new_memory).0
      ≡ device_state none (codes "v") d new_memory)
    × (device_state none (codes "v") d (reset_device none u d new_memory).0
        ≡ device_state none (codes "v") d new_memory)
tenants_separate_example =
    tenants_separate none first (codes "v") d new_memory (omega arith, tt) (omega arith, tt)
      (λ h. ground arith)

-- The user `u` counts three events on the device `d}:x`; the user `u}:d` reads them as its `x`.
tenants_share_state_example :
    device_state none
      (codes "u}:d")
      (codes "x")
      (apply_window none (window u (codes "d}:x") 1 3) new_memory).0
    ≡ ok
        (fold_in
          (window u (codes "d}:x") 1 3)
          (record_or_new (window u (codes "d}:x") 1 3) new_memory)).state
tenants_share_state_example =
    tenants_share_state (window u (codes "d}:x") 1 3) u d (codes "x") new_memory refl refl

abbrev listed : Memory
listed = (apply_window none first watched).0

-- The state after the two windows.
abbrev both : DeviceState
both = record {
  user_id = u;
  device_id = d;
  count = 7;
  error_count = 2;
  bytes = 700;
  p95_nanos = 5;
  p99_nanos = 6;
  last_window_id = 2;
  last_seen = epoch + 30;
  stale = false;
}

twice : device_state none u d (apply_all (first ∷ second ∷ first ∷ []) new_memory) ≡ ok both
unfolding device_state apply_all apply_window apply_known known offer notify_all refresh add_counts
    find get_or put text_eq identity append format_int device_key
twice = refl

counts_refine_ledger_example :
    let l = ledger_of (device_key u d) (first ∷ second ∷ first ∷ []) [] in
    (7 ≡ total (λ w. w.count) l)
    × (2 ≡ total (λ w. w.error_count) l)
    × (700 ≡ total (λ w. w.bytes) l)
counts_refine_ledger_example = counts_refine_ledger (first ∷ second ∷ first ∷ []) u d both twice
