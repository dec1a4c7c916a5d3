-- ===== src/Aggregate/Aggregator/Conservation.antt =====
-- No event is lost between `IngestBatch` and `Commit`: counts, errors and bytes only move.
use mcp_ironclaw.Prelude.{ℕ, ◌≡◌, Bool}
use mcp_ironclaw.Go.Int64.{add64}
use mcp_ironclaw.Go.Map.{string_eq, total}
use mcp_ironclaw.Aggregate.WindowKey.{WindowKey, window_key_eq}
use mcp_ironclaw.Aggregate.Aggregator.{QuantileSketch, Aggregator, collect, selected, retained}
use mcp_ironclaw.Aggregate.Aggregator.Invariant.{HasRoom, Inv}
use mcp_ironclaw.Aggregate.Aggregator.Measure.{
  Measure, event_measure, error_measure, bytes_measure, close_all-held,
}

module _ (q : QuantileSketch) where
  open q use {Sketch}

  -- The events, the failed events and the bytes that are open or pending.
  abbrev pub held_events : Aggregator Sketch → ℕ
  held_events a = add64 (total (λ s. s.count) a.windows) (total (λ w. w.count) a.pending)

  abbrev pub held_errors : Aggregator Sketch → ℕ
  held_errors a =
      add64 (total (λ s. s.error_count) a.windows) (total (λ w. w.error_count) a.pending)

  abbrev pub held_bytes : Aggregator Sketch → ℕ
  held_bytes a = add64 (total (λ s. s.bytes) a.windows) (total (λ w. w.bytes) a.pending)

  -- Whatever `collect` includes, and whether or not a query fails half way, the events, the failed
  -- events and the bytes that are open or pending stay the same in total.
  pub collect-conserves :
      (include : WindowKey → Bool) (a : Aggregator Sketch)
      → Inv a
      → HasRoom a
      → let b = (collect q include a).0 in
        (held_events b ≡ held_events a)
        × (held_errors b ≡ held_errors a)
        × (held_bytes b ≡ held_bytes a)
  unfolding collect
  collect-conserves include a v room =
      let conserves =
        λ (m : Measure q). close_all-held q m (selected q include a) (retained q a) a (v, room) in
      (conserves (event_measure q), conserves (error_measure q), conserves (bytes_measure q))
