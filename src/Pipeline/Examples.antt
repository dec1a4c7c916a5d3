-- ===== src/Pipeline/Examples.antt =====
-- The theorems on the batcher at runs of an agent with batches of one event and a queue of depth one.
use mcp_ironclaw.Prelude.{◌+◌, ◌≡◌, refl, true, false, none, some, [], ◌∷◌}
use mcp_ironclaw.Go.Time
use mcp_ironclaw.Go.Text.{codes, is_empty, text_eq}
use mcp_ironclaw.Domain.Event.{Event, Batch, validate, kind_valid}
use mcp_ironclaw.Pipeline.{
  count_outcome, BatcherConfig, Attempt, with_outcome, OverflowPolicy, OverflowOutcome, Transport,
  batch_of, new_batcher, collect_event, strategy_for, collected, accept, start_flush,
  drop_oldest_stage, count_outcome, count_dropped,
}
use mcp_ironclaw.Pipeline.Steps.{State, Step, Reachable, attempted}
use mcp_ironclaw.Pipeline.Balance.{IsBalanced, Reachable-IsBalanced}
use mcp_ironclaw.Pipeline.Overflow.{newest_dropped}

abbrev config : BatcherConfig
config = record {
  device_id = codes "d";
  max_events = 1;
  max_interval = 1_000;
  queue_depth = 1;
  policy = OverflowPolicy.drop_oldest;
  shutdown_grace = 0;
  flush_signal = false;
}

abbrev event : Event
event = record {
  device_id = codes "d";
  user_id = codes "u";
  process_id = 7;
  pod_id = [];
  kind = 2;
  observed_at = Time.epoch + 5;
  latency_nanos = 3;
  bytes = 9;
  failed = true;
}

abbrev sink : Transport Unit
sink b x = (x, none)

abbrev batch : Batch
batch = batch_of config 9 (event ∷ [])

abbrev start : State Unit
start = record { batcher = new_batcher tt; handed = 0 }

-- One event comes in and its batch is stored; then another comes in, and its batch meets a full queue.
abbrev flushed : State Unit
flushed = record start { batcher = collect_event config 9 event start.batcher }

abbrev stored : State Unit
stored = record flushed {
  batcher = attempted config false (Attempt.offering batch) flushed.batcher;
}

abbrev outcome : OverflowOutcome
outcome = record { enqueued = true; dropped = [] }

abbrev settled : State Unit
settled = record stored {
  batcher = record (stored.batcher) {
    attempt = none;
    stats = count_outcome outcome stored.batcher.stats;
  };
}

abbrev again : State Unit
again = record settled { batcher = collect_event config 9 event settled.batcher }

abbrev full : State Unit
full = record again { batcher = attempted config false (Attempt.offering batch) again.batcher }

full-Reachable : Reachable config sink full
unfolding collected accept validate start_flush strategy_for drop_oldest_stage is_empty text_eq
    kind_valid count_outcome count_dropped
full-Reachable =
    let first = Reachable.step (Reachable.new tt) (Step.receiving 9 event start refl refl) in
    let second = Reachable.step first (Step.trying false (Attempt.offering batch) flushed refl) in
    let third = Reachable.step second (Step.settling outcome stored refl) in
    let fourth = Reachable.step third (Step.receiving 9 event settled refl refl) in
    Reachable.step fourth (Step.trying false (Attempt.offering batch) again refl)

full-evicting : full.batcher.attempt ≡ some (Attempt.evicting batch)
unfolding collected accept validate start_flush strategy_for drop_oldest_stage is_empty text_eq
    kind_valid count_outcome count_dropped
full-evicting = refl

full-free : full.batcher.hand ≡ none
unfolding collected accept validate start_flush is_empty text_eq kind_valid
full-free = refl

Reachable-IsBalanced_example : IsBalanced full
Reachable-IsBalanced_example = Reachable-IsBalanced config sink full full-Reachable

newest_dropped_example :
    (t : State Unit) × Reachable config sink t
    × (t.batcher.attempt ≡ some (with_outcome false (batch ∷ [])))
    × (t.batcher.queue ≡ [])
newest_dropped_example =
    newest_dropped config sink batch full refl full-Reachable full-evicting full-free
