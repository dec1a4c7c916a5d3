-- ===== src/Services.antt =====
-- The services between the parts: internal/aggregator, internal/persister, internal/ingest,
-- internal/commands, internal/app and internal/transport/loopback.go.
pub mod Metrics
pub mod Emission
pub mod Ingestion
pub mod Handlers
pub mod Composites
mod Examples
