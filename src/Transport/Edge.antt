-- ===== src/Transport/Edge.antt =====
-- The agent's transport of internal/transport/https.go with the edge of internal/httpingest/server.go
-- and the ingest service of internal/ingest/service.go at its other end.
use mcp_ironclaw.Prelude.{
  ℕ, ◌≡◌, refl, ◌⊎◌, inl, inr, true, none, some, List, arith, All, map, Option-cases,
}
use mcp_ironclaw.Go.Text.{is_empty_iff, text_eq_iff}
use mcp_ironclaw.Domain.Errors.{is_unacceptable, Error, Result, ok, unacceptable}
use mcp_ironclaw.Domain.Event.{Batch}
use mcp_ironclaw.Domain.Event.Validity.{IsValidBatch}
use mcp_ironclaw.Wire.Edge.{EdgeBatch, edge_batch}
use mcp_ironclaw.Services.Ingestion.{Publisher, Service, accept}
use mcp_ironclaw.Services.Ingestion.Authentication.{accept_lem, IsAdmissible}
use mcp_ironclaw.HttpIngest.{
  Server, Request, State, ingest, ingest_payload, accept_batch, peer_is_authorised_edge,
}
use mcp_ironclaw.HttpIngest.Payloads.{IsRecent, in_pod, to_batch-edge_batch, in_pod-BelongsTo}
use mcp_ironclaw.Spool.Files.{Disk}
use mcp_ironclaw.Transport.{
  Client, Response, Https, send, send_payload, post, error_of, permanently_refused, undelivered,
}

-- The batch as it arrives: with the server's pod and time of creation.
abbrev pub arrived : Server → (ℕ → ℕ) → Batch → Batch
arrived s clock b = record b { created_at = clock 0; events = map (in_pod s.pod_id) b.events }

-- An authorised edge hands on the payload that the agent has encoded, under the agent's device.
pub record IsOwn (s : Server) (decode : ℕ → List ℕ → Result EdgeBatch) (r : Request) (b : Batch)
    : Type 0 where
  pub peer : peer_is_authorised_edge s r ≡ true
  pub device : r.header s.identity_header ≡ b.device_id
  pub carried : decode s.max_body_bytes r.body ≡ ok (edge_batch b)

module _ {W : Type 0} (publish : Publisher W) (s : Server) (decode : ℕ → List ℕ → Result EdgeBatch)
    (clock : ℕ → ℕ) where
  ingest_own :
      (r : Request) (b : Batch) (st : State (Service W))
      → IsOwn s decode r b
      → IsValidBatch b
      → All IsRecent b.events
      → ingest s decode clock (accept publish) r st
        ≡ accept_batch s decode clock (accept publish) b.device_id (arrived s clock b) st
  unfolding ingest ingest_payload edge_batch
  ingest_own r b st o v t = ground (
    arith,
    o.peer,
    o.device,
    o.carried,
    to_batch-edge_batch s clock b v t,
    v.has_device,
    is_empty_iff b.device_id,
    text_eq_iff b.device_id b.device_id,
  )

  arrived-IsAdmissible : (b : Batch) → IsValidBatch b → IsAdmissible b.device_id (arrived s clock b)
  arrived-IsAdmissible b v = record {
    known = v.has_device;
    own = refl;
    valid = record {
      has_device = v.has_device;
      events_valid = in_pod-BelongsTo s.pod_id b.device_id b.events v.events_valid;
    };
  }

  -- The edge as the client of an agent, whose payloads come to it as these requests.
  abbrev pub edge_client : (List ℕ → Request) → Client (State (Service W))
  edge_client request payload st =
      let (st', status) = ingest s decode clock (accept publish) (request payload) st in
      (st', Response.answered status)

  -- What the edge answers to a payload of its own, and what the publisher has then been given.
  edge_client_lem :
      (request : List ℕ → Request) (b : Batch) (payload : List ℕ) (st : State (Service W))
      → IsOwn s decode (request payload) b
      → IsValidBatch b
      → All IsRecent b.events
      → let (world, result) = publish b.device_id (arrived s clock b) st.world.world in
        let (st', response) = edge_client request payload st in
        (st'.world.world ≡ world)
        × (((result ≡ none) × (error_of response ≡ none))
            ⊎ (((e : Error) × (result ≡ some e)) × (error_of response ≡ some unacceptable)))
  unfolding error_of permanently_refused
  edge_client_lem request b payload st o v t =
      let a = arrived s clock b in
      let same = ingest_own (request payload) b st o v t in
      let (iff, refused, admitted) = accept_lem publish b.device_id a st.world in
      let admissible = arrived-IsAdmissible b v in
      let world = admitted admissible in
      elim (Option-cases (accept publish b.device_id a st.world).1) [
        | inl f ↦ (ground (arith, same, world), inl ((iff.0 f).1, ground (arith, same)))
        | inr (x, f) ↦ elim (Option-cases (publish b.device_id a st.world.world).1) [
          | inl g ↦ absurd (ground (arith, iff.1 (admissible, g)))
          | inr (e, g) ↦ (ground (arith, same, world), inr ((e, g), ground (arith, same)))
        ]
      ]

  module _ {D : Type 0} (d : Disk D) (request : List ℕ → Request) where
    -- An agent sends its batch to an edge that fronts the ingest service. If the edge is authorised and
    -- hands the payload on under the agent's device, and the batch is valid with all its events after
    -- 1970, then the publisher behind the service is given the batch once, with the server's pod and
    -- time of creation. When the publisher takes it, `Send` succeeds. Whatever error the publisher
    -- returns instead, such as a bus that is closed or cannot be reached, `Send` takes it for a
    -- permanent refusal: it fails, and nothing is added to the spool.
    pub send_to_edge :
        (encode : Batch → Result (List ℕ)) (b : Batch) (payload : List ℕ)
        (h : Https (State (Service W)) D)
        → encode b ≡ ok payload
        → IsOwn s decode (request payload) b
        → IsValidBatch b
        → All IsRecent b.events
        → let (world, result) = publish b.device_id (arrived s clock b) h.network.world.world in
          let (h', sent) = send (edge_client request) d encode b h in
          (h'.network.world.world ≡ world)
          × (h'.queue ≡ h.queue)
          × (((result ≡ none) × (sent ≡ none))
              ⊎ (((e : Error) × (result ≡ some e)) × (sent ≡ some unacceptable)))
    unfolding send send_payload post undelivered is_unacceptable
    send_to_edge encode b payload h enc o v t =
        let (world, outcome) = edge_client_lem request b payload h.network o v t in
        elim outcome [
          | inl (took, r) ↦ (ground (arith, world), ground arith, inl (took, ground arith))
          | inr (e, r) ↦ (ground (arith, world), ground arith, inr (e, ground arith))
        ]
