-- ===== src/Services/Emission.antt =====
-- internal/aggregator/service.go: batches into the window source, and its windows to the publisher.
-- The publisher is a component of its own: a function on a world that it may change.
pub mod Retention
pub mod Source
pub mod Shedding
use mcp_ironclaw.Prelude.{
  ℕ, ◌-◌, ◌==◌, Option, none, some, List, [], ◌∷◌, ◌++◌, if◌then◌else◌, length,
}
use mcp_ironclaw.Go.Int64.{sub64}
use mcp_ironclaw.Go.Text.{Text, codes}
use mcp_ironclaw.Domain.Errors.{Error, Result, ok, err}
use mcp_ironclaw.Domain.Event.{Batch}
use mcp_ironclaw.Domain.Key.{AggregateWindow}
use mcp_ironclaw.Services.Metrics.{Recorder, record_sample}

abbrev pub metric_batches_consumed : Text
metric_batches_consumed = codes "aggregator_batches_consumed"

abbrev pub metric_windows_emitted : Text
metric_windows_emitted = codes "aggregator_windows_emitted"

abbrev pub metric_windows_retained : Text
metric_windows_retained = codes "aggregator_windows_retained"

abbrev pub metric_events_shed : Text
metric_events_shed = codes "aggregator_events_shed"

-- The interface `WindowSource`; `shed` is there when the source is a `shedReporter`.
pub record WindowSource (S : Type 0) : Type 0 where
  pub ingest_batch : Batch → S → S × Option Error
  pub collect_windows_before : ℕ → S → S × Result (List AggregateWindow)
  pub collect_all : S → S × Result (List AggregateWindow)
  pub commit : List AggregateWindow → S → S
  pub shed : Option (S → ℕ)

-- domain.WindowPublisher, with the context that it is called under
abbrev pub WindowPublisher : Type 0 → Type 0
WindowPublisher W = AggregateWindow → W → W × Option Error

pub record Service (S W : Type 0) : Type 0 where
  pub source : S
  pub world : W
  pub metrics : Recorder
  pub last_shed : ℕ  -- int64

abbrev pub record_metric : {S W : Type 0} → Text → ℕ → Service S W → Service S W
record_metric name delta s =
    if delta == 0 then s else record s { metrics = record_sample name delta s.metrics }

-- What a round of publications yields: the world, the windows that were published and the first
-- failure.
pub record Published (W : Type 0) : Type 0 where
  pub world : W
  pub published : List AggregateWindow
  pub failure : Option Error

-- The first of two failures.
abbrev pub first_failure : Option Error → Option Error → Option Error
first_failure (some e) later = some e
first_failure none later = later

module _ {W : Type 0} (publish_window : WindowPublisher W) where
  -- The loop of `publish`.
  unfoldable pub publish_all : List AggregateWindow → Published W → Published W
  publish_all [] p = p
  publish_all (w ∷ ws) p =
      let (world, result) = publish_window w p.world in
      elim result [
        | none ↦ publish_all ws (record p { world = world; published = p.published ++ w ∷ [] })
        | some e ↦
            publish_all ws (record p { world = world; failure = first_failure p.failure (some e) })
      ]

module _ {S W : Type 0} (src : WindowSource S) (publish_window : WindowPublisher W) where
  -- The end of `publish`: `Commit` and the two metrics.
  abbrev pub settle : List AggregateWindow → Published W → Service S W → Service S W × Option Error
  settle ws p s =
      let emitted =
        record_metric metric_windows_emitted (length p.published)
          (record s { source = src.commit p.published s.source; world = p.world }) in
      elim p.failure [
        | none ↦ (emitted, none)
        | some e ↦
            (record_metric metric_windows_retained (length ws - length p.published) emitted, some e)
      ]

  unfoldable pub publish : List AggregateWindow → Service S W → Service S W × Option Error
  publish ws s =
      settle ws
        (publish_all publish_window ws (record { world = s.world; published = []; failure = none }))
        s

  abbrev pub publish_collected :
      S × Result (List AggregateWindow) → Service S W → Service S W × Option Error
  publish_collected (x, err e) s = (record s { source = x }, some e)
  publish_collected (x, ok ws) s = publish ws (record s { source = x })

  unfoldable pub emit_closed_windows : ℕ → Service S W → Service S W × Option Error
  emit_closed_windows watermark s =
      publish_collected (src.collect_windows_before watermark s.source) s

  unfoldable pub emit_all : Service S W → Service S W × Option Error
  emit_all s = publish_collected (src.collect_all s.source) s

  unfoldable pub record_shed : Service S W → Service S W
  record_shed s = elim (src.shed) [
    | none ↦ s
    | some shed ↦
        let now = shed s.source in
        record_metric metric_events_shed (sub64 now s.last_shed) (record s { last_shed = now })
  ]

  -- A batch that the source has taken.
  abbrev pub taken : S × Option Error → Service S W → Service S W × Option Error
  taken (x, some e) s = (record s { source = x }, some e)
  taken (x, none) s =
      (record_shed (record_metric metric_batches_consumed 1 (record s { source = x })), none)

  unfoldable pub handle_batch : Option Error → Batch → Service S W → Service S W × Option Error
  handle_batch ctx b s = elim ctx [
    | some e ↦ (s, some e)
    | none ↦ taken (src.ingest_batch b s.source) s
  ]
