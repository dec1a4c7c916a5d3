-- ===== src/Pipeline/Steps.antt =====
-- The collector and the sender of internal/pipeline/batcher.go side by side: each step is a case of a
-- `select`, or what one of them does alone.
use mcp_ironclaw.Prelude.{ℕ, ◌+◌, ◌≡◌, false, Bool, none, some, List, ◌∷◌}
use mcp_ironclaw.Domain.Event.{Event, Batch, len}
use mcp_ironclaw.Pipeline.{
  BatcherConfig, Batcher, Attempt, ended, OverflowOutcome, Transport, collect_event, start_flush,
  finish, strategy_for, count_outcome, send_batch, new_batcher,
}

-- A batcher, and how many events the transport has been handed so far.
pub record State (W : Type 0) : Type 0 where
  pub batcher : Batcher W
  pub handed : ℕ

-- The stage of an `Enqueue` after one `select`.
abbrev pub attempted : {W : Type 0} → BatcherConfig → Bool → Attempt → Batcher W → Batcher W
attempted c give_up a b =
    let (a', queue) = strategy_for c.policy give_up c.queue_depth a b.queue in
    record b { attempt = some a'; queue = queue }

module _ {W : Type 0} (c : BatcherConfig) (send : Transport W) where
  pub data Step : State W → State W → Type 0 where
    -- an event comes in
    receiving :
        (now : ℕ) (e : Event) (s : State W)
        → s.batcher.attempt ≡ none
        → s.batcher.finished ≡ false
        → Step s (record s { batcher = collect_event c now e s.batcher })
    -- the flush signal
    ticking :
        (now : ℕ) (s : State W)
        → s.batcher.attempt ≡ none
        → s.batcher.finished ≡ false
        → Step s (record s { batcher = start_flush c now s.batcher })
    -- the context is done, or the source has closed its channel
    finishing :
        (now : ℕ) (s : State W)
        → s.batcher.attempt ≡ none
        → s.batcher.finished ≡ false
        → Step s (record s { batcher = finish c now s.batcher })
    -- one `select` of the strategy
    trying :
        (give_up : Bool) (a : Attempt) (s : State W)
        → s.batcher.attempt ≡ some a
        → Step s (record s { batcher = attempted c give_up a s.batcher })
    -- the end of `flush`
    settling :
        (o : OverflowOutcome) (s : State W)
        → s.batcher.attempt ≡ some (ended o)
        → Step s (record s {
          batcher = record (s.batcher) { attempt = none; stats = count_outcome o s.batcher.stats };
        })
    -- the sender receives a batch
    taking :
        (batch : Batch) (rest : List Batch) (s : State W)
        → s.batcher.hand ≡ none
        → s.batcher.queue ≡ batch ∷ rest
        → Step s (record s { batcher = record (s.batcher) { queue = rest; hand = some batch } })
    -- the sender has sent it
    sending :
        (batch : Batch) (s : State W)
        → s.batcher.hand ≡ some batch
        → Step s
            (record s { batcher = send_batch send batch s.batcher; handed = s.handed + len batch })

  pub data Reachable : State W → Type 0 where
    new : (world : W) → Reachable (record { batcher = new_batcher world; handed = 0 })
    step : {s t : State W} → Reachable s → Step s t → Reachable t
