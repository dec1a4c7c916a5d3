-- ===== src/HttpIngest/Examples.antt =====
-- The theorems on the edge at concrete requests.
use mcp_ironclaw.Prelude.{ℕ, ◌+◌, ◌≡◌, refl, ◌↔◌, ◌⊎◌, true, none, List, [], ◌∷◌, arith}
use mcp_ironclaw.Go.Time
use mcp_ironclaw.Go.Text.{codes}
use mcp_ironclaw.Domain.Errors.{Result, ok}
use mcp_ironclaw.Domain.Event.{Event, Batch}
use mcp_ironclaw.Domain.Event.Validity.{IsValidBatch}
use mcp_ironclaw.Wire.Edge.{EdgeBatch, edge_batch}
use mcp_ironclaw.Services.Ingestion.{Publisher, Service, accept}
use mcp_ironclaw.HttpIngest.{some, Server, Request, State, BatchAcceptor, ingest}
use mcp_ironclaw.HttpIngest.Requests.{IsServed, IsAttributed, IsRefusal, ingest_lem}
use mcp_ironclaw.HttpIngest.Behind.{served_lem}

abbrev pub server : Server
server = record {
  identity_header = codes "X-Device-Id";
  max_body_bytes = 1000;
  allowed_clients = (codes "edge", true) ∷ [];
  pod_id = codes "pod";
}

abbrev pub event : Event
event = record {
  device_id = codes "d";
  user_id = codes "u";
  process_id = 7;
  pod_id = [];
  kind = 2;
  observed_at = Time.epoch + 5;
  latency_nanos = 3;
  bytes = 9;
  failed = true;
}

abbrev pub batch : Batch
batch = record { device_id = codes "d"; created_at = 0; events = event ∷ [] }

pub batch-IsValidBatch : IsValidBatch batch
batch-IsValidBatch = record {
  has_device = cc;
  events_valid = (
    (
      record {
        has_device = cc;
        has_user = cc;
        known_kind = omega arith;
        latency = omega arith;
        size = omega arith;
        observed = omega arith;
      },
      refl,
    ),
    tt,
  );
}

-- A library that reads every body as the agent's batch.
abbrev pub decode : ℕ → List ℕ → Result EdgeBatch
decode limit raw = ok (edge_batch batch)

abbrev pub clock : ℕ → ℕ
clock i = Time.epoch + 100 + i

abbrev pub request : List ℕ → Request
request payload = record {
  peer = some (codes "edge" ∷ []);
  header = λ name. codes "d";
  body = payload;
}

abbrev counting : BatchAcceptor ℕ
counting device b n = (n + 1, none)

abbrev state : State ℕ
state = record { world = 0; metrics = none }

ingest_lem_example :
    IsServed server decode clock counting
      (request [])
      state
      (ingest server decode clock counting (request []) state)
ingest_lem_example = ingest_lem server decode clock counting (request []) state

-- A publisher that counts what it takes.
abbrev publish : Publisher ℕ
publish key b n = (n + 1, none)

abbrev service_state : State (Service ℕ)
service_state = record { world = record { world = 0; metrics = none }; metrics = none }

served_lem_example :
    let (st', status) = ingest server decode clock (accept publish) (request []) service_state in
    (IsRefusal status × (st'.world ≡ service_state.world))
    ⊎ ((b : Batch) × IsAttributed server (request []) b
        × (◌≡◌ {A = ℕ} st'.world.world 1)
        × ((status ≡ 202) ↔ ((publish b.device_id b 0).1 ≡ none))
        × ((status ≡ 202) ⊎ IsRefusal status))
served_lem_example = served_lem publish server decode clock (request []) service_state
