-- ===== src/Aggregate.antt =====
-- internal/aggregate: tumbling windows and their sketches.
pub mod WindowKey
pub mod Aggregator
pub mod Sketch
