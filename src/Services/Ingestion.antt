-- ===== src/Services/Ingestion.antt =====
-- internal/ingest/service.go and internal/transport/loopback.go: batches of an authenticated device
-- to the bus.
pub mod Authentication
use mcp_ironclaw.Prelude.{ℕ, ◌||◌, Option, none, some, List}
use mcp_ironclaw.Go.Text.{Text, codes, is_empty}
use mcp_ironclaw.Domain.Errors.{Error, missing_identity, ◌>>◌, reject_if}
use mcp_ironclaw.Domain.Event.{Batch, len, validate_batch, verify_identity}
use mcp_ironclaw.Services.Metrics.{Recorder, record_sample}

abbrev pub metric_batches_accepted : Text
metric_batches_accepted = codes "ingest_batches_accepted"

abbrev pub metric_batches_rejected : Text
metric_batches_rejected = codes "ingest_batches_rejected"

abbrev pub metric_events_accepted : Text
metric_events_accepted = codes "ingest_events_accepted"

-- domain.Publisher: the partition key and the batch
abbrev pub Publisher : Type 0 → Type 0
Publisher W = Text → Batch → W → W × Option Error

pub record Service (W : Type 0) : Type 0 where
  pub world : W
  pub metrics : Recorder

abbrev pub rejected_with : {W : Type 0} → Error → Service W → Service W × Option Error
rejected_with e s =
    (record s { metrics = record_sample metric_batches_rejected 1 s.metrics }, some e)

-- The three checks of `Accept` that come before the publication.
unfoldable pub check_batch : Text → Batch → Option Error
check_batch authenticated b =
    reject_if (is_empty authenticated) missing_identity
    >> verify_identity b authenticated
    >> validate_batch b

module _ {W : Type 0} (publish : Publisher W) where
  abbrev pub publish_batch : Batch → Service W → Service W × Option Error
  publish_batch b s =
      let (world, result) = publish b.device_id b s.world in
      elim result [
        | some e ↦ rejected_with e (record s { world = world })
        | none ↦ (
          record {
            world = world;
            metrics =
                record_sample metric_events_accepted (len b)
                  (record_sample metric_batches_accepted 1 s.metrics);
          },
          none,
        )
      ]

  unfoldable pub accept : Text → Batch → Service W → Service W × Option Error
  accept authenticated b s = elim (check_batch authenticated b) [
    | some e ↦ rejected_with e s
    | none ↦ publish_batch b s
  ]

-- Loopback.Send, for a loopback transport with an identity
abbrev pub loopback_send :
    {W : Type 0} → Publisher W → Text → Batch → Service W → Service W × Option Error
loopback_send publish identity b s = accept publish identity b s
