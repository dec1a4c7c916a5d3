-- ===== src/Bus/Lifecycle.antt =====
-- The senders, the consumers and the shutdown of internal/bus/bus.go, in any interleaving.
use mcp_ironclaw.Prelude.{ℕ, ◌+◌, ◌%◌, ◌<◌, ◌≡◌, none, some, List, ◌∷◌, true, length}
use mcp_ironclaw.Go.Int64.{modulus}
use mcp_ironclaw.Go.Text.{Text}
use mcp_ironclaw.Go.Map.{Map, find, put, remove, nat_eq, IsUnique, total}
use mcp_ironclaw.Go.Map.Entries.{Entries}
use mcp_ironclaw.Bus.{
  suc, add_dead_letter, count_dead, count_retry, count_abandoned, Error, count_delivered,
  take_value, Option, Bus, Consumer, partition_for, enter_send, leave_send, has_room, store_value,
  count_published, queue_at,
}
use mcp_ironclaw.Bus.Queues.{queued, IsConfig}

-- Where a call of `Send` stands: it has entered, it has stored its value, or it is about to leave.
pub data Phase (T : Type 0) : Type 0 where
  entered : ℕ → T → Phase T
  stored : Phase T
  ended : Phase T

-- Where a call of `deliver` stands with its value, which no partition holds any more: it has so many
-- attempts left, the handler has returned with so many left, or the value is counted as dead and not
-- yet among the dead letters.
pub data Hand (T : Type 0) : Type 0 where
  trying : ℕ → T → Hand T
  returned : ℕ → T → Option Error → Hand T
  burying : T → Hand T

-- The bus with the calls of `Send` that have entered it and the calls of `deliver` that have begun, by
-- an identifier for each.
pub record System (T W : Type 0) : Type 0 where
  pub bus : Bus T
  pub senders : Map ℕ (Phase T)
  pub hands : Map ℕ (Hand T)
  pub world : W

-- The bus once `Close` holds the lock, and once it has seen the last sender leave.
abbrev pub close_begin : {T : Type 0} → Bus T → Bus T
close_begin b = record b { closed = true }

abbrev pub close_end : {T : Type 0} → Bus T → Bus T
close_end b = record b { shutdown = true }

module _ {T W : Type 0} (c : Consumer T W) where
  pub data Step : System T W → System T W → Type 0 where
    entering :
        (i : ℕ) (key : Text) (v : T) (s : System T W) (b : Bus T)
        → find i s.senders ≡ none
        → enter_send s.bus ≡ (b, true)
        → Step s (record s {
          bus = b;
          senders = put i (Phase.entered (partition_for s.bus key) v) s.senders;
        })
    storing :
        (i p : ℕ) (v : T) (s : System T W)
        → find i s.senders ≡ some (Phase.entered p v)
        → has_room p s.bus ≡ true
        → Step s (record s { bus = store_value p v s.bus; senders = put i Phase.stored s.senders })
    counting :
        (i : ℕ) (s : System T W)
        → find i s.senders ≡ some Phase.stored
        → Step s (record s { bus = count_published s.bus; senders = put i Phase.ended s.senders })
    giving_up :
        (i p : ℕ) (v : T) (s : System T W)
        → find i s.senders ≡ some (Phase.entered p v)
        → Step s (record s { senders = put i Phase.ended s.senders })
    leaving :
        (i : ℕ) (s : System T W)
        → find i s.senders ≡ some Phase.ended
        → Step s (record s { bus = leave_send s.bus; senders = remove i s.senders })
    closing : (s : System T W) → Step s (record s { bus = close_begin s.bus })
    shutting_down :
        (s : System T W)
        → s.bus.closed ≡ true
        → s.bus.inflight ≡ 0
        → Step s (record s { bus = close_end s.bus })
    taking :
        (i p : ℕ) (v : T) (rest : List T) (s : System T W)
        → find i s.hands ≡ none
        → queue_at p s.bus.partitions ≡ v ∷ rest
        → Step s (record s {
          bus = take_value p rest s.bus;
          hands = put i (Hand.trying s.bus.config.max_attempts v) s.hands;
        })
    handling :
        (i n : ℕ) (v : T) (s : System T W)
        → find i s.hands ≡ some (Hand.trying (suc n) v)
        → Step s (record s {
          world = (c.handler v s.world).0;
          hands = put i (Hand.returned n v (c.handler v s.world).1) s.hands;
        })
    delivering :
        (i n : ℕ) (v : T) (s : System T W)
        → find i s.hands ≡ some (Hand.returned n v none)
        → Step s (record s { bus = count_delivered s.bus; hands = remove i s.hands })
    abandoning :
        (i n : ℕ) (v : T) (e e' : Error) (s : System T W)
        → find i s.hands ≡ some (Hand.returned n v (some e))
        → c.context s.world ≡ some e'
        → Step s (record s { bus = count_abandoned s.bus; hands = remove i s.hands })
    retrying :
        (i n : ℕ) (v : T) (e : Error) (s : System T W)
        → find i s.hands ≡ some (Hand.returned n v (some e))
        → c.context s.world ≡ none
        → Step s (record s { bus = count_retry n s.bus; hands = put i (Hand.trying n v) s.hands })
    dying :
        (i : ℕ) (v : T) (s : System T W)
        → find i s.hands ≡ some (Hand.trying 0 v)
        → Step s (record s { bus = count_dead s.bus; hands = put i (Hand.burying v) s.hands })
    burying :
        (i : ℕ) (v : T) (s : System T W)
        → find i s.hands ≡ some (Hand.burying v)
        → Step s (record s { bus = add_dead_letter v s.bus; hands = remove i s.hands })

-- One for a value that is stored and not yet counted.
abbrev pub uncounted : {T : Type 0} → Phase T → ℕ
uncounted Phase.stored = 1
uncounted _ = 0

-- One for a value that its consumer has not counted yet, and one for a value that is dead and still to
-- be added to the dead letters.
abbrev pub in_hand : {T : Type 0} → Hand T → ℕ
in_hand (Hand.burying v) = 0
in_hand _ = 1

abbrev pub unburied : {T : Type 0} → Hand T → ℕ
unburied (Hand.burying v) = 1
unburied _ = 0

abbrev pub InPartition : {T : Type 0} → ℕ → ℕ → Phase T → Type 0
InPartition n i (Phase.entered p v) = p < n
InPartition n i _ = Unit

-- Every value that was stored is counted as published, or its sender is about to count it, and it is
-- delivered, dead, abandoned, in a consumer's hands or still queued; and the dead ones are dead letters
-- or about to become such.
pub record Inv {T W : Type 0} (s : System T W) : Type 0 where
  pub config : IsConfig s.bus.config
  pub partitions : length s.bus.partitions ≡ s.bus.config.partitions
  pub unique : IsUnique s.senders
  pub in_partition : Entries (InPartition s.bus.config.partitions) s.senders
  pub inflight : s.bus.inflight ≡ length s.senders
  pub unique_hands : IsUnique s.hands
  pub shut : s.bus.shutdown ≡ true → (s.bus.closed ≡ true) × (s.bus.inflight ≡ 0)
  pub balance :
      (s.bus.stats.published + total uncounted s.senders) % modulus
      ≡ (s.bus.stats.delivered
          + s.bus.stats.dead
          + s.bus.stats.abandoned
          + total in_hand s.hands
          + queued s.bus.partitions)
        % modulus
  pub letters :
      s.bus.stats.dead % modulus ≡ (length s.bus.dead_letter + total unburied s.hands) % modulus
