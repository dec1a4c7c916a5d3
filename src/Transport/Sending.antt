-- ===== src/Transport/Sending.antt =====
-- What `Send` of internal/transport/https.go does with a batch.
use mcp_ironclaw.Prelude.{
  ℕ, ◌≡◌, refl, ◌⊎◌, inl, inr, none, some, List, arith, Bool-cases, Option-cases, subst, sym, ◌≤◌,
  ◌<◌,
}
use mcp_ironclaw.Domain.Errors.{Error, Result, ok, is_unacceptable, Result-cases}
use mcp_ironclaw.Domain.Event.{Batch}
use mcp_ironclaw.Spool.{Spool, enqueue}
use mcp_ironclaw.Spool.Files.{Disk}
use mcp_ironclaw.Spool.Stored.{IsNewest, enqueue-IsNewest}
use mcp_ironclaw.Transport.{
  Client, Response, Https, error_of, permanently_refused, post, send, send_payload, undelivered,
  spool_payload, record_spool_drops, record_metric, metric_spooled,
}

-- The response acknowledges the payload.
abbrev pub IsAcknowledged : Response → Type 0
IsAcknowledged r = (status : ℕ) × (r ≡ Response.answered status) × (200 ≤ status) × (status < 300)

error_of-none : (r : Response) → error_of r ≡ none → IsAcknowledged r
unfolding error_of permanently_refused
error_of-none (Response.failed n) h = cc
error_of-none (Response.answered status) h = (status, refl, ground arith, ground arith)

module _ {W D : Type 0} (client : Client W) (d : Disk D) where
  -- The payload waits in the spool, as its newest entry and in a file on the disk.
  abbrev pub IsSpooled : List ℕ → Https W D → Type 0
  IsSpooled payload h = (q : Spool) × (h.queue ≡ some q) × IsNewest d payload (q, h.disk)

  record_spool_drops-kept :
      (q : Spool) (h : Https W D)
      → ((record_spool_drops q h).queue ≡ h.queue) × ((record_spool_drops q h).disk ≡ h.disk)
  unfolding record_spool_drops
  record_spool_drops-kept q h = ground arith

  spool_payload-IsSpooled :
      (payload : List ℕ) (q : Spool) (h : Https W D)
      → (spool_payload client d payload q h).1 ≡ none
      → IsSpooled payload (spool_payload client d payload q h).0
  unfolding spool_payload
  spool_payload-IsSpooled payload q h e =
      let state = (enqueue d payload (q, h.disk)).0 in
      let after : Https W D = record (record_metric metric_spooled 1 h) {
        queue = some state.0;
        disk = state.1;
      } in
      let (queue, disk) = record_spool_drops-kept state.0 after in
      (
        state.0,
        queue,
        subst (λ x. IsNewest d payload (state.0, x)) (sym disk)
            (enqueue-IsNewest d payload q h.disk e),
      )

  undelivered-IsSpooled :
      (payload : List ℕ) (x : Error) (h : Https W D)
      → (undelivered client d payload x h).1 ≡ none
      → IsSpooled payload (undelivered client d payload x h).0
  unfolding undelivered
  undelivered-IsSpooled payload x h e = elim (Bool-cases (is_unacceptable x)) [
    | inl u ↦ absurd (ground arith)
    | inr u ↦ elim (Option-cases h.queue) [
      | inl f ↦ absurd (ground arith)
      | inr (q, f) ↦ rw (u, undelivered, f) (spool_payload-IsSpooled payload q h (ground arith))
    ]
  ]

  -- A `Send` that succeeds has not lost the batch: the edge has answered its payload with a status
  -- from 200 to 299, or the payload is the newest entry of the spool and was written to that entry's
  -- file, with every step up to the sync of the directory successful.
  pub send_lem :
      (encode : Batch → Result (List ℕ)) (b : Batch) (h : Https W D)
      → (send client d encode b h).1 ≡ none
      → (payload : List ℕ) × (encode b ≡ ok payload)
        × (IsAcknowledged (client payload h.network).1
            ⊎ IsSpooled payload (send client d encode b h).0)
  unfolding send send_payload post
  send_lem encode b h e = elim (Result-cases (encode b)) [
    | inl (x, f) ↦ absurd (ground arith)
    | inr (payload, f) ↦
        let posted : Https W D = record h { network = (client payload h.network).0 } in
        elim (Option-cases (error_of (client payload h.network).1)) [
          | inl g ↦ (payload, f, inl (error_of-none (client payload h.network).1 g))
          | inr (x, g) ↦
              let same : send client d encode b h ≡ undelivered client d payload x posted =
                ground arith in
              (
                payload,
                f,
                inr (
                    subst (λ r. IsSpooled payload r.0) (sym same)
                      (undelivered-IsSpooled payload x posted (ground arith))),
              )
        ]
  ]
