-- ===== src/Store/Locker/Examples.antt =====
-- The theorems on leases at a concrete sequence of calls.
use mcp_ironclaw.Prelude.{◌*◌, ℕ, ℕ, ◌≡◌, refl, ◌≢◌, ◌<◌, ◌+◌, none, arith}
use mcp_ironclaw.Go.Text.{Text, codes, is_empty, text_eq}
use mcp_ironclaw.Go.Time.{epoch}
use mcp_ironclaw.Go.Map.{find, put, get_or, string_eq}
use mcp_ironclaw.Domain.Errors.{ok}
use mcp_ironclaw.Store.Locker.{Lease, Locker, new_locker, acquire, guard, is_held, grant}
use mcp_ironclaw.Store.Locker.Fencing.{Run, stale_lease_refused}

abbrev device : Text
device = codes "device"

abbrev second : ℕ
second = 1_000_000_000

abbrev first_lease : Lease
first_lease = record { resource = device; token = 1; expires_at = epoch + second }

abbrev second_lease : Lease
second_lease = record { resource = device; token = 2; expires_at = epoch + 7 * second }

abbrev one_held : Locker
one_held = grant first_lease new_locker

abbrev two_held : Locker
two_held = grant second_lease one_held

first_granted : acquire none device second epoch new_locker ≡ (one_held, ok first_lease)
unfolding acquire is_held is_empty find get_or put
first_granted = refl

second_granted :
    acquire none device (5 * second) (epoch + 2 * second) one_held ≡ (two_held, ok second_lease)
unfolding acquire is_held is_empty find get_or put text_eq
second_granted = refl

-- The first lease expired; its holder is refused once the second one is granted.
stale_lease_refused_example : (1 < 2) × (guard none first_lease epoch two_held ≢ none)
unfolding find get_or
stale_lease_refused_example =
    stale_lease_refused none none device second (5 * second) epoch (epoch + 2 * second) new_locker
      one_held one_held two_held two_held first_lease second_lease 0 0 first_granted Run.start
      second_granted Run.start (omega arith) none epoch

valid : guard none second_lease (epoch + 3 * second) two_held ≡ none
unfolding guard find get_or put text_eq
valid = refl
