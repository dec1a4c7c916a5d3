-- ===== src/Store/Memory/Lifecycle.antt =====
-- The life of the watchers of internal/store/watch.go over any interleaving of the store's methods
-- with the goroutines that end the watches.
use mcp_ironclaw.Prelude.{ℕ, ◌≤◌, ◌≡◌, refl, ◌≢◌, true, Option, none, some, List, ◌∷◌, length}
use mcp_ironclaw.Go.Text.{Text}
use mcp_ironclaw.Go.Map.{find, get_or, nat_eq, string_eq}
use mcp_ironclaw.Go.Map.Entries.{has}
use mcp_ironclaw.Domain.Errors.{Error, panic}
use mcp_ironclaw.Domain.Key.{AggregateWindow, DeviceState}
use mcp_ironclaw.Store.Memory.{
  Memory, Watcher, new_memory, watch_buffer, apply_window, reset_device, increment, watch_device,
  unwatch,
}
use mcp_ironclaw.Store.Memory.Watchers.{
  watching, IsLive, IsLive-same, apply_window-IsLive, reset_device-IsLive,
}
use mcp_ironclaw.Store.Memory.Subscriptions.{
  watch_device-IsLive, unwatch-IsLive, received, received-IsLive,
}

-- One step of the store: a method, a watcher's goroutine that ends its watch, or a consumer.
pub data Step : Memory → Memory → Type 0 where
  applying :
      (ctx : Option Error) (w : AggregateWindow) (m : Memory) → Step m (apply_window ctx w m).0
  resetting : (ctx : Option Error) (u d : Text) (m : Memory) → Step m (reset_device ctx u d m).0
  watching_device :
      (ctx : Option Error) (u d : Text) (x : ℕ) (m : Memory)
      → find x m.channels ≡ none
      → Step m (watch_device ctx u d x m).0
  unwatching :
      (key : Text) (x : ℕ) (m : Memory) → has x (watching key m) ≡ true → Step m (unwatch key x m)
  receiving :
      (x : ℕ) (w : Watcher) (s : DeviceState) (rest : List DeviceState) (m : Memory)
      → find x m.channels ≡ some w
      → w.updates ≡ s ∷ rest
      → Step m (received x w rest m)
  counting : (name : Text) (delta : ℕ) (m : Memory) → Step m (increment name delta m)

pub data Reachable : Memory → Type 0 where
  new : Reachable new_memory
  step : {m m' : Memory} → Reachable m → Step m m' → Reachable m'

Step-IsLive : (m m' : Memory) → Step m m' → IsLive m → IsLive m'
Step-IsLive m _ (Step.applying ctx w _) live = (apply_window-IsLive ctx w m live).0
Step-IsLive m _ (Step.resetting ctx u d _) live = (reset_device-IsLive ctx u d m live).0
Step-IsLive m _ (Step.watching_device ctx u d x _ fresh) live =
    watch_device-IsLive ctx u d x m fresh live
Step-IsLive m _ (Step.unwatching key x _ h) live = unwatch-IsLive key x m h live
Step-IsLive m _ (Step.receiving x w s rest _ e f) live = received-IsLive x w s rest m e f live
Step-IsLive m _ (Step.counting name delta _) live =
    IsLive-same m (increment name delta m) refl refl live

new_memory-IsLive : IsLive new_memory
unfolding get_or find has
new_memory-IsLive = record {
  all_open = λ key x h. cc;
  one_key = λ key key' x h h'. cc;
  buffers = λ x w e. cc;
}

Reachable-IsLive : (m : Memory) → Reachable m → IsLive m
Reachable-IsLive _ Reachable.new = new_memory-IsLive
Reachable-IsLive m (Reachable.step {m = m0} r s) = Step-IsLive m0 m s (Reachable-IsLive m0 r)

-- In every memory that the methods and the ends of watches reach, in any order, applying a window
-- and resetting a device send on no closed channel: `ApplyWindow` fails with its context's error
-- only, and no channel buffers more than eight updates.
pub Reachable-never_panics :
    (m : Memory)
    → Reachable m
    → ((ctx : Option Error) (w : AggregateWindow) → (apply_window ctx w m).1 ≡ ctx)
      × ((u d : Text) → (reset_device none u d m).1 ≢ some panic)
      × ((x : ℕ) (w : Watcher) → find x m.channels ≡ some w → length w.updates ≤ watch_buffer)
Reachable-never_panics m r =
    let live = Reachable-IsLive m r in
    (
      λ ctx w. (apply_window-IsLive ctx w m live).1,
      λ u d. (reset_device-IsLive none u d m live).1 refl,
      live.buffers,
    )
