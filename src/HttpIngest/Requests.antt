-- ===== src/HttpIngest/Requests.antt =====
-- What internal/httpingest/server.go lets through to the acceptor.
use mcp_ironclaw.Prelude.{
  ℕ, suc, ◌≡◌, refl, ◌≢◌, ◌↔◌, ◌⊎◌, inl, inr, true, not, ◌&&◌, none, List, [], ◌∷◌, arith, All,
  Bool-cases, Option-cases, if_both,
}
use mcp_ironclaw.Go.Text.{Text, is_empty, is_empty_iff, text_eq}
use mcp_ironclaw.Domain.Errors.{Error, Result, ok, Result-cases}
use mcp_ironclaw.Domain.Event.{Event, Batch, validate_batch}
use mcp_ironclaw.Domain.Event.Validity.{IsValidBatch, validate_batch_iff}
use mcp_ironclaw.Wire.Edge.{EdgeEvent, EdgeBatch}
use mcp_ironclaw.HttpIngest.{
  accept_batch, accept_batch, Server, Request, State, BatchAcceptor, edge_event_of, edge_events_of,
  to_batch, ingest, assembled, ingest_payload, peer_is_authorised_edge, status_of,
}

-- An event of this device, taken in by this server.
abbrev pub IsTakenIn : Server → Text → Event → Type 0
IsTakenIn s device e = (e.device_id ≡ device) × (e.pod_id ≡ s.pod_id)

edge_events_of-IsTakenIn :
    (s : Server) (device : Text) (clock : ℕ → ℕ) (i : ℕ) (es : List EdgeEvent)
    → All (IsTakenIn s device) (edge_events_of s device clock i es)
unfolding edge_events_of edge_event_of
edge_events_of-IsTakenIn s device clock i [] = tt
edge_events_of-IsTakenIn s device clock i (e ∷ es) =
    ((refl, refl), edge_events_of-IsTakenIn s device clock (suc i) es)

-- A batch that may go to the acceptor: an authorised edge has sent it, and it is attributed to the
-- device of the header, whatever its body says.
pub record IsAttributed (s : Server) (r : Request) (b : Batch) : Type 0 where
  pub authorised : peer_is_authorised_edge s r ≡ true
  pub known : r.header s.identity_header ≢ []
  pub own : b.device_id ≡ r.header s.identity_header
  pub taken_in : All (IsTakenIn s (r.header s.identity_header)) b.events
  pub valid : IsValidBatch b

abbrev pub IsRefusal : ℕ → Type 0
IsRefusal status = (status ≡ 400) ⊎ ((status ≡ 401) ⊎ (status ≡ 403))

to_batch_lem :
    (s : Server) (device : Text) (clock : ℕ → ℕ) (p : EdgeBatch) (b : Batch)
    → to_batch s device clock p ≡ ok b
    → (b ≡ assembled s device clock p) × IsValidBatch b
unfolding to_batch
to_batch_lem s device clock p b e =
    elim (Option-cases (validate_batch (assembled s device clock p))) [
      | inl f ↦
          let same : b ≡ assembled s device clock p = ground arith in
          (same, rw same ((validate_batch_iff (assembled s device clock p)).0 f))
      | inr (x, f) ↦ absurd (ground arith)
    ]

status_of-IsRefusal : (e : Error) → IsRefusal (status_of e)
status_of-IsRefusal e = ground arith

module _ {W : Type 0} (s : Server) (decode : ℕ → List ℕ → Result EdgeBatch) (clock : ℕ → ℕ)
    (accept : BatchAcceptor W) where
  -- What a request has done: it was refused and the acceptor not called, or the acceptor was called
  -- with one batch.
  abbrev pub IsServed : Request → State W → State W × ℕ → Type 0
  IsServed r st out =
      (IsRefusal out.1 × (out.0.world ≡ st.world))
      ⊎ ((b : Batch) × IsAttributed s r b
          × (out.0.world ≡ (accept (r.header s.identity_header) b st.world).0)
          × ((out.1 ≡ 202) ↔ ((accept (r.header s.identity_header) b st.world).1 ≡ none))
          × ((out.1 ≡ 202) ⊎ IsRefusal out.1))

  accepted_lem :
      (r : Request) (b : Batch) (st : State W)
      → IsAttributed s r b
      → IsServed r st (accept_batch s decode clock accept (r.header s.identity_header) b st)
  accepted_lem r b st a = elim (Option-cases (accept (r.header s.identity_header) b st.world).1) [
    | inl e ↦ rw (e, accept_batch) (inr (b, a, refl, (λ h. e, λ h. refl), inl refl))
    | inr (x, e) ↦
        let refusal = status_of-IsRefusal x in
        rw (e, accept_batch) (inr (b, a, refl, ground arith, inr refusal))
  ]

  payload_lem :
      (r : Request) (p : EdgeBatch) (st : State W)
      → peer_is_authorised_edge s r ≡ true
      → r.header s.identity_header ≢ []
      → IsServed r st (ingest_payload s decode clock accept (r.header s.identity_header) p st)
  unfolding ingest_payload
  payload_lem r p st peer known =
      let device = r.header s.identity_header in
      if_both (IsServed r st) (not (is_empty p.device_id) && not (text_eq p.device_id device)) _ _
        (inl (inr (inr refl), refl))
        (elim (Result-cases (to_batch s device clock p)) [
          | inl (x, f) ↦ rw f (inl (inl refl, refl))
          | inr (b, f) ↦
              let (same, valid) = to_batch_lem s device clock p b f in
              let taken_in = edge_events_of-IsTakenIn s device clock 1 p.events in
              rw f (
                accepted_lem r b st (record {
                  authorised = peer;
                  known = known;
                  own = ground arith;
                  taken_in = rw same taken_in;
                  valid = valid;
                }))
        ])

  -- A request is refused with 400, 401 or 403 and the acceptor is not called; or the acceptor is
  -- called once, with a valid batch that an authorised edge sent and whose every event names the
  -- device of the identity header, whatever the body says: then the status is 202 exactly when the
  -- acceptor took the batch, and a refusal otherwise.
  pub ingest_lem : (r : Request) (st : State W) → IsServed r st (ingest s decode clock accept r st)
  unfolding ingest
  ingest_lem r st = elim (Bool-cases (peer_is_authorised_edge s r)) [
    | inr no_edge ↦ rw (no_edge, ingest) (inl (inr (inr refl), refl))
    | inl peer ↦ elim (Bool-cases (is_empty (r.header s.identity_header))) [
      | inl nobody ↦ rw (peer, ingest, nobody) (inl (inr (inl refl), refl))
      | inr somebody ↦ elim (Result-cases (decode s.max_body_bytes r.body)) [
        | inl (x, f) ↦ rw (peer, ingest, somebody, f) (inl (inl refl, refl))
        | inr (p, f) ↦
            rw (peer, ingest, somebody, f)
              (payload_lem r p st peer (ground (arith, is_empty_iff (r.header s.identity_header))))
      ]
    ]
  ]
