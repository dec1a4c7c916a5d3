-- ===== src/HttpIngest/Behind.antt =====
-- The edge of internal/httpingest/server.go in front of the ingest service of
-- internal/ingest/service.go.
use mcp_ironclaw.Prelude.{ℕ, ◌≡◌, ◌↔◌, ◌⊎◌, inl, inr, none, List, ap, ◌∙◌}
use mcp_ironclaw.Domain.Errors.{Result}
use mcp_ironclaw.Domain.Event.{Batch}
use mcp_ironclaw.Wire.Edge.{EdgeBatch}
use mcp_ironclaw.Services.Ingestion.{Publisher, Service, accept}
use mcp_ironclaw.Services.Ingestion.Authentication.{IsAdmissible, accept_lem}
use mcp_ironclaw.HttpIngest.{Server, Request, State, ingest}
use mcp_ironclaw.HttpIngest.Requests.{IsAttributed, IsRefusal, ingest_lem}

admissible :
    (s : Server) (r : Request) (b : Batch)
    → IsAttributed s r b
    → IsAdmissible (r.header s.identity_header) b
admissible s r b a = record { known = a.known; own = a.own; valid = a.valid }

module _ {W : Type 0} (publish : Publisher W) (s : Server) (decode : ℕ → List ℕ → Result EdgeBatch)
    (clock : ℕ → ℕ) where
  -- In front of the ingest service, the edge answers 202 exactly when a batch of the device was
  -- published: a request is refused and nothing is published, or one batch of the device is handed to
  -- the publisher, which the service itself never refuses, and the status tells whether the publisher
  -- took it.
  pub served_lem :
      (r : Request) (st : State (Service W))
      → let (st', status) = ingest s decode clock (accept publish) r st in
        (IsRefusal status × (st'.world ≡ st.world))
        ⊎ ((b : Batch) × IsAttributed s r b
            × (st'.world.world ≡ (publish b.device_id b st.world.world).0)
            × ((status ≡ 202) ↔ ((publish b.device_id b st.world.world).1 ≡ none))
            × ((status ≡ 202) ⊎ IsRefusal status))
  served_lem r st = elim (ingest_lem s decode clock (accept publish) r st) [
    | inl refused ↦ inl refused
    | inr (b, a, w, iff, code) ↦
        let device = r.header s.identity_header in
        let admitted = admissible s r b a in
        let accepted = accept_lem publish device b st.world in
        inr (
          b,
          a,
          ap Service.world w ∙ accepted.2 admitted,
          (λ h. (accepted.0.0 (iff.0 h)).1, λ h. iff.1 (accepted.0.1 (admitted, h))),
          code,
        )
  ]
