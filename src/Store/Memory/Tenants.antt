-- ===== src/Store/Memory/Tenants.antt =====
-- Whose state the methods of internal/store/memory.go read and write: the separation of the tenants
-- rests on `deviceKey`.
use mcp_ironclaw.Prelude.{◌≡◌, sym, ◌≢◌, Option, none, ◌∷◌, ◌++◌, arith, ap, append_assoc}
use mcp_ironclaw.Go.Text.{Text, text_eq_iff, Lacks, split_first}
use mcp_ironclaw.Go.Map.{string_eq}
use mcp_ironclaw.Domain.Errors.{Error, ok}
use mcp_ironclaw.Domain.Key.{AggregateWindow}
use mcp_ironclaw.Store.Memory.{Memory, apply_window, reset_device, device_state, device_key}
use mcp_ironclaw.Store.Memory.Devices.{
  find-apply_window, find-reset_device, fold_in, record_or_new, key_of_window,
}

-- Among users whose identifiers hold no closing brace, a device key determines user and device.
pub device_key-injective :
    (u u' d d' : Text)
    → Lacks b'}' u
    → Lacks b'}' u'
    → device_key u d ≡ device_key u' d'
    → (u ≡ u') × (d ≡ d')
unfolding device_key
device_key-injective u u' d d' h h' e =
    let (p, q) = split_first b'}' u u' (b':' ∷ d) (b':' ∷ d') h h' (cc) in (p, cc)

-- When no user's identifier holds a closing brace, applying a window and resetting its device leave
-- the state that is read of every other device, of that user or another, as it was.
pub tenants_separate :
    (ctx : Option Error) (w : AggregateWindow) (u d : Text) (m : Memory)
    → Lacks b'}' u
    → Lacks b'}' w.user_id
    → (w.user_id ≡ u → w.device_id ≢ d)
    → (device_state ctx u d (apply_window none w m).0 ≡ device_state ctx u d m)
      × (device_state ctx u d (reset_device none w.user_id w.device_id m).0
          ≡ device_state ctx u d m)
unfolding device_state
tenants_separate ctx w u d m h h' other =
    let differs = device_key-injective w.user_id u w.device_id d h' h in
    (
      ground (
        arith,
        find-apply_window w m (device_key u d),
        text_eq_iff (key_of_window w) (device_key u d),
      ),
      ground (
        arith,
        find-reset_device w.user_id w.device_id m (device_key u d),
        text_eq_iff (key_of_window w) (device_key u d),
      ),
    )

-- Two keys that differ in user and device can be the same text.
device_key_collides :
    (u d x : Text) → device_key u (d ++ b'}' ∷ b':' ∷ x) ≡ device_key (u ++ b'}' ∷ b':' ∷ d) x
unfolding device_key
device_key_collides u d x =
    ap (λ t. b'{' ∷ t) (sym (append_assoc u (b'}' ∷ b':' ∷ d) (b'}' ∷ b':' ∷ x)))

-- Without that condition two tenants share their state: a window of the user `u` for a device named
-- `d}:x` is what a read of the device `x` of the user `u}:d` returns.
pub tenants_share_state :
    (w : AggregateWindow) (u d x : Text) (m : Memory)
    → w.user_id ≡ u
    → w.device_id ≡ d ++ b'}' ∷ b':' ∷ x
    → device_state none (u ++ b'}' ∷ b':' ∷ d) x (apply_window none w m).0
      ≡ ok (fold_in w (record_or_new w m)).state
unfolding device_state
tenants_share_state w u d x m eu ed =
    let collide = device_key_collides u d x in
    let shared = u ++ b'}' ∷ b':' ∷ d in
    ground (
      arith,
      find-apply_window w m (device_key shared x),
      text_eq_iff (key_of_window w) (device_key shared x),
      ap (λ v. device_key v w.device_id) eu,
      ap (device_key u) ed,
    )
