-- ===== src/Bus/Examples.antt =====
-- The theorems on the bus at a concrete bus of two partitions, with a handler that fails at its first
-- call.
use mcp_ironclaw.Prelude.{
  ℕ, ◌+◌, ◌%◌, ◌≤◌, ◌≡◌, refl, ◌==◌, true, none, some, [], ◌∷◌, if◌then◌else◌,
}
use mcp_ironclaw.Go.Int64.{modulus}
use mcp_ironclaw.Go.Text.{codes}
use mcp_ironclaw.Go.Map.{find, put, total, nat_eq}
use mcp_ironclaw.Domain.Errors.{foreign}
use mcp_ironclaw.Bus.{
  Config, Bus, Consumer, new_bus, fresh_bus, validate_config, repeat, partition_for, fnv32a,
  fnv32a_from, xor_bits, enter_send, leave_send, push_at, queue_at, take_value,
}
use mcp_ironclaw.Bus.Queues.{queued}
use mcp_ironclaw.Bus.Lifecycle.{System, Hand, Step, uncounted, in_hand, unburied}
use mcp_ironclaw.Bus.Reachability.{Reachable, Reachable-balance, shutdown_settles}
use mcp_ironclaw.Bus.Adapters.{send, send-Reachable}

abbrev config : Config
config = record { partitions = 2; capacity = 1; max_attempts = 2 }

abbrev empty : Bus ℕ
empty = fresh_bus config

-- The world counts the calls of the handler.
abbrev flaky : Consumer ℕ ℕ
flaky = record {
  handler = λ v n. (n + 1, if n == 0 then some (foreign 1) else none);
  context = λ n. none;
}

abbrev start : System ℕ ℕ
start = record { bus = empty; senders = []; hands = []; world = 0 }

start-Reachable : Reachable flaky start
unfolding new_bus validate_config
start-Reachable = Reachable.new config empty 0 refl

-- The bus after one value has been sent.
abbrev loaded : Bus ℕ
loaded = record empty {
  partitions = push_at (partition_for empty (codes "u")) 7 empty.partitions;
  stats = record (empty.stats) { published = 1 };
}

sent : send none (codes "u") 7 empty ≡ some (loaded, none)
unfolding send enter_send leave_send push_at queue_at repeat partition_for fnv32a fnv32a_from
    xor_bits
sent = refl

-- The value in the hands of a consumer whose handler has failed once.
abbrev in_handler : System ℕ ℕ
in_handler = record {
  bus = take_value (partition_for empty (codes "u")) [] loaded;
  senders = [];
  hands = (3, Hand.returned 1 7 (some (foreign 1))) ∷ [];
  world = 1;
}

in_handler-Reachable : Reachable flaky in_handler
unfolding find put queue_at push_at repeat partition_for fnv32a fnv32a_from xor_bits
in_handler-Reachable =
    let p = partition_for empty (codes "u") in
    let s : System ℕ ℕ = record { bus = loaded; senders = []; hands = []; world = 0 } in
    Reachable.step
      (Reachable.step
        (send-Reachable flaky none (codes "u") 7 empty loaded 0 none sent start-Reachable)
        (Step.taking 3 p 7 [] s refl refl))
      (Step.handling 3 1 7
        (record s { bus = take_value p [] loaded; hands = (3, Hand.trying 2 7) ∷ [] }) refl)

Reachable-balance_example :
    ((1 + total {K = ℕ} (uncounted {T = ℕ}) []) % modulus
      ≡ (0 + 0 + 0 + total in_hand in_handler.hands + queued in_handler.bus.partitions) % modulus)
    × (0 % modulus ≡ (0 + total unburied in_handler.hands) % modulus)
Reachable-balance_example = Reachable-balance flaky in_handler in_handler-Reachable

-- The bus is closed with one value queued.
abbrev closed : System ℕ ℕ
closed = record {
  bus = record loaded { closed = true; shutdown = true };
  senders = [];
  hands = [];
  world = 0;
}

closed-Reachable : Reachable flaky closed
closed-Reachable =
    Reachable.step
      (Reachable.step
        (send-Reachable flaky none (codes "u") 7 empty loaded 0 none sent start-Reachable)
        (Step.closing (record { bus = loaded; senders = []; hands = []; world = 0 })))
      (Step.shutting_down
        (record { bus = record loaded { closed = true }; senders = []; hands = []; world = 0 }) refl
        refl)

shutdown_settles_example :
    (closed.senders ≡ [])
    × ((s : System ℕ ℕ)
        → Step flaky closed s
        → (s.bus.shutdown ≡ true)
          × (s.bus.stats.published ≡ 1)
          × (queued s.bus.partitions ≤ queued closed.bus.partitions))
    × (queued closed.bus.partitions ≡ 0 → closed.hands ≡ [] → 1 % modulus ≡ (0 + 0 + 0) % modulus)
shutdown_settles_example = shutdown_settles flaky closed closed-Reachable refl
