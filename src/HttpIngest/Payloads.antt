-- ===== src/HttpIngest/Payloads.antt =====
-- What an agent's batch (internal/wire/edge.go) becomes at the edge (internal/httpingest/server.go).
use mcp_ironclaw.Prelude.{ℕ, suc, ◌≡◌, refl, List, [], ◌∷◌, map, arith, All, ap, ◌<◌, ◌+◌, ◌^◌}
use mcp_ironclaw.Go.Time
use mcp_ironclaw.Go.Text.{Text}
use mcp_ironclaw.Domain.Errors.{ok}
use mcp_ironclaw.Domain.Event.{Event, Batch}
use mcp_ironclaw.Domain.Event.Validity.{IsValidBatch, BelongsTo, validate_batch_iff, kind_valid_iff}
use mcp_ironclaw.Wire.Edge.{edge_event, edge_batch}
use mcp_ironclaw.HttpIngest.{Server, edge_event_of, edge_events_of, to_batch}

-- Observed after 1970, at a time whose nanoseconds fit an int64.
abbrev pub IsRecent : Event → Type 0
IsRecent e = (Time.epoch < e.observed_at) × (e.observed_at < Time.epoch + 2 ^ 63)

-- The event with the server's pod in place of its own.
abbrev pub in_pod : Text → Event → Event
in_pod pod e = record e { pod_id = pod }

edge_event_of-edge_event :
    (s : Server) (now : ℕ) (device : Text) (e : Event)
    → BelongsTo device e
    → IsRecent e
    → edge_event_of s device now (edge_event e) ≡ in_pod s.pod_id e
unfolding edge_event_of
edge_event_of-edge_event s now device e v t =
    ground (arith, kind_valid_iff e.kind, v.0.known_kind, v.1)

edge_events_of-map :
    (s : Server) (device : Text) (clock : ℕ → ℕ) (i : ℕ) (es : List Event)
    → All (BelongsTo device) es
    → All IsRecent es
    → edge_events_of s device clock i (map edge_event es) ≡ map (in_pod s.pod_id) es
unfolding edge_events_of
edge_events_of-map s device clock i [] v t = refl
edge_events_of-map s device clock i (e ∷ es) v t = ground (
  arith,
  edge_event_of-edge_event s (clock i) device e v.0 t.0,
  edge_events_of-map s device clock (suc i) es v.1 t.1,
)

pub in_pod-BelongsTo :
    (pod device : Text) (es : List Event)
    → All (BelongsTo device) es
    → All (BelongsTo device) (map (in_pod pod) es)
in_pod-BelongsTo pod device [] v = tt
in_pod-BelongsTo pod device (e ∷ es) v = (ground (arith, v.0), in_pod-BelongsTo pod device es v.1)

-- A valid batch whose events were observed after 1970 arrives at the edge, under its own device, with
-- the same events in the same order: only the pod becomes the server's, and the time of creation the
-- server's.
pub to_batch-edge_batch :
    (s : Server) (clock : ℕ → ℕ) (b : Batch)
    → IsValidBatch b
    → All IsRecent b.events
    → to_batch s b.device_id clock (edge_batch b)
      ≡ ok (record b { created_at = clock 0; events = map (in_pod s.pod_id) b.events })
unfolding to_batch edge_batch
to_batch-edge_batch s clock b v t =
    let same = edge_events_of-map s b.device_id clock 1 b.events v.events_valid t in
    let arrived : Batch = record b {
      created_at = clock 0;
      events = map (in_pod s.pod_id) b.events;
    } in
    let valid = (validate_batch_iff arrived).1 (record {
      has_device = v.has_device;
      events_valid = in_pod-BelongsTo s.pod_id b.device_id b.events v.events_valid;
    }) in
    rw (same, to_batch, valid) (ap (λ (es : List Event). ok (record arrived { events = es })) same)
