-- ===== src/Pipeline.antt =====
-- internal/pipeline: the agent's batcher (batcher.go), the strategies for a full queue (overflow.go)
-- and the sender that empties it (sender.go). The queue is a channel: its buffer and its capacity. A
-- `select` of a strategy is one stage of it, since the sender may take a batch between two of them.
pub mod Steps
pub mod Balance
pub mod Overflow
mod Examples
use mcp_ironclaw.Prelude.{
  ℕ, Bool, true, false, not, ◌&&◌, Option, none, some, List, [], ◌∷◌, ◌++◌, ltb, leb, if◌then◌else◌,
  length,
}
use mcp_ironclaw.Go.Int64.{add64, is_positive}
use mcp_ironclaw.Go.Text.{Text, is_empty, text_eq}
use mcp_ironclaw.Domain.Errors.{
  Error, ◌>>◌, reject_if, missing_device_id, device_mismatch, invalid_max_events, invalid_interval,
  invalid_queue_depth,
}
use mcp_ironclaw.Domain.Event.{Event, Batch, validate, len}

pub data OverflowPolicy : Type 0 where
  drop_oldest drop_newest block : OverflowPolicy

-- 5 * time.Second
abbrev pub default_shutdown_grace : ℕ
default_shutdown_grace = 5_000_000_000

pub record BatcherConfig : Type 0 where
  pub device_id : Text
  pub max_events : ℕ  -- int
  pub max_interval : ℕ  -- time.Duration
  pub queue_depth : ℕ  -- int
  pub policy : OverflowPolicy
  pub shutdown_grace : ℕ
  pub flush_signal : Bool  -- whether there is one

unfoldable pub validate_config : BatcherConfig → Option Error
validate_config c =
    reject_if (is_empty c.device_id) missing_device_id
    >> reject_if (not (is_positive c.max_events)) invalid_max_events
    >> reject_if (not (is_positive c.max_interval) && not c.flush_signal) invalid_interval
    >> reject_if (not (is_positive c.queue_depth)) invalid_queue_depth

-- The default of `NewBatcher`.
abbrev pub with_grace : BatcherConfig → BatcherConfig
with_grace c = record c {
  shutdown_grace =
      if is_positive c.shutdown_grace then c.shutdown_grace else default_shutdown_grace;
}

-- The counters; each is an int64.
pub record Counters : Type 0 where
  pub events_accepted : ℕ
  pub events_rejected : ℕ
  pub events_dropped : ℕ
  pub batches_enqueued : ℕ
  pub batches_dropped : ℕ
  pub batches_sent : ℕ
  pub send_failures : ℕ

abbrev pub no_counts : Counters
no_counts = record {
  events_accepted = 0;
  events_rejected = 0;
  events_dropped = 0;
  batches_enqueued = 0;
  batches_dropped = 0;
  batches_sent = 0;
  send_failures = 0;
}

pub record OverflowOutcome : Type 0 where
  pub enqueued : Bool
  pub dropped : List Batch

-- Where an `Enqueue` stands: before its first `select`, before the one that evicts, before the last
-- one with the batch that it has evicted, or at its end.
pub data Attempt : Type 0 where
  offering : Batch → Attempt
  evicting : Batch → Attempt
  reoffering : Batch → Batch → Attempt
  ended : OverflowOutcome → Attempt

abbrev pub with_outcome : Bool → List Batch → Attempt
with_outcome enqueued dropped = ended (record { enqueued = enqueued; dropped = dropped })

-- The `select` that takes the oldest batch out.
abbrev pub evict : Batch → List Batch → Attempt × List Batch
evict b [] = (with_outcome false (b ∷ []), [])
evict b (oldest ∷ rest) = (reoffering oldest b, rest)

-- One `select` of dropOldestStrategy.Enqueue, on a queue of this capacity.
unfoldable pub drop_oldest_stage : ℕ → Attempt → List Batch → Attempt × List Batch
drop_oldest_stage depth (offering b) queue =
    if ltb (length queue) depth
    then (with_outcome true [], queue ++ b ∷ [])
    else (evicting b, queue)
drop_oldest_stage depth (evicting b) queue = evict b queue
drop_oldest_stage depth (reoffering oldest b) queue =
    if ltb (length queue) depth
    then (with_outcome true (oldest ∷ []), queue ++ b ∷ [])
    else (with_outcome false (oldest ∷ b ∷ []), queue)
drop_oldest_stage depth (ended outcome) queue = (ended outcome, queue)

-- dropNewestStrategy.Enqueue
unfoldable pub drop_newest_stage : ℕ → Attempt → List Batch → Attempt × List Batch
drop_newest_stage depth (offering b) queue =
    if ltb (length queue) depth
    then (with_outcome true [], queue ++ b ∷ [])
    else (with_outcome false (b ∷ []), queue)
drop_newest_stage depth a queue = (a, queue)

-- blockingStrategy.Enqueue: where the context is done, `select` may take either case; a batch that
-- cannot be stored yet waits.
unfoldable pub block_stage : Bool → ℕ → Attempt → List Batch → Attempt × List Batch
block_stage give_up depth (offering b) queue =
    if give_up
    then (with_outcome false (b ∷ []), queue)
    else if ltb (length queue) depth
    then (with_outcome true [], queue ++ b ∷ [])
    else (offering b, queue)
block_stage give_up depth a queue = (a, queue)

-- StrategyFor
unfoldable pub strategy_for :
    OverflowPolicy → Bool → ℕ → Attempt → List Batch → Attempt × List Batch
strategy_for drop_oldest give_up = drop_oldest_stage
strategy_for drop_newest give_up = drop_newest_stage
strategy_for block give_up = block_stage give_up

-- The batcher with what its collector and its sender hold: the events of the next batch, the
-- `Enqueue` that is on its way, the batch in the sender's hands, and whether `collect` has returned.
pub record Batcher (W : Type 0) : Type 0 where
  pub queue : List Batch
  pub stats : Counters
  pub pending : List Event
  pub attempt : Option Attempt
  pub hand : Option Batch
  pub finished : Bool
  pub world : W

unfoldable pub accept : BatcherConfig → Event → Option Error
accept c e = validate e >> reject_if (not (text_eq e.device_id c.device_id)) device_mismatch

-- The counting of `accept`.
abbrev pub count_accept : Option Error → Counters → Counters
count_accept none n = record n { events_accepted = add64 n.events_accepted 1 }
count_accept (some e) n = record n { events_rejected = add64 n.events_rejected 1 }

abbrev pub batch_of : BatcherConfig → ℕ → List Event → Batch
batch_of c now events = record { device_id = c.device_id; created_at = now; events = events }

-- The beginning of `flush`, which hands the events over to the strategy.
unfoldable pub start_flush : {W : Type 0} → BatcherConfig → ℕ → Batcher W → Batcher W
start_flush c now b = elim (b.pending) [
  | [] ↦ b
  | e ∷ es ↦ record b { pending = []; attempt = some (offering (batch_of c now (e ∷ es))) }
]

-- The batcher with one event more.
abbrev pub with_event : {W : Type 0} → Event → Batcher W → Batcher W
with_event e b = record b { pending = b.pending ++ e ∷ []; stats = count_accept none b.stats }

-- The case of `collect` for an event that `accept` has checked.
unfoldable pub collected :
    {W : Type 0} → BatcherConfig → ℕ → Event → Option Error → Batcher W → Batcher W
collected c now e (some x) b = record b { stats = count_accept (some x) b.stats }
collected c now e none b =
    if leb c.max_events (length (with_event e b).pending)
    then start_flush c now (with_event e b)
    else with_event e b

abbrev pub collect_event : {W : Type 0} → BatcherConfig → ℕ → Event → Batcher W → Batcher W
collect_event c now e b = collected c now e (accept c e) b

-- The two cases of `collect` that return.
abbrev pub finish : {W : Type 0} → BatcherConfig → ℕ → Batcher W → Batcher W
finish c now b = record (start_flush c now b) { finished = true }

unfoldable pub count_dropped : List Batch → Counters → Counters
count_dropped [] n = n
count_dropped (b ∷ bs) n = count_dropped bs (record n {
  batches_dropped = add64 n.batches_dropped 1;
  events_dropped = add64 n.events_dropped (len b);
})

-- The end of `flush`.
unfoldable pub count_outcome : OverflowOutcome → Counters → Counters
count_outcome o n =
    count_dropped o.dropped
      (if o.enqueued then record n { batches_enqueued = add64 n.batches_enqueued 1 } else n)

-- domain.Transport
abbrev pub Transport : Type 0 → Type 0
Transport W = Batch → W → W × Option Error

-- The counting of the sender's `run`.
abbrev pub count_sent : Option Error → Counters → Counters
count_sent none n = record n { batches_sent = add64 n.batches_sent 1 }
count_sent (some e) n = record n { send_failures = add64 n.send_failures 1 }

-- A round of the sender's `run`, with the batch that it has received.
unfoldable pub send_batch : {W : Type 0} → Transport W → Batch → Batcher W → Batcher W
send_batch send batch b =
    let (world, result) = send batch b.world in
    record b { world = world; hand = none; stats = count_sent result b.stats }

-- NewBatcher, for a configuration that is valid.
abbrev pub new_batcher : {W : Type 0} → W → Batcher W
new_batcher world = record {
  queue = [];
  stats = no_counts;
  pending = [];
  attempt = none;
  hand = none;
  finished = false;
  world = world;
}
