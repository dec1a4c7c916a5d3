-- ===== src/Services/Ingestion/Authentication.antt =====
-- What internal/ingest/service.go lets through: only valid batches, under the identity that the
-- transport has authenticated.
use mcp_ironclaw.Prelude.{
  ◌∙◌, All-mono, ◌≡◌, refl, ◌≢◌, ◌↔◌, none, [], arith, Option-cases, inl, inr,
}
use mcp_ironclaw.Go.Text.{Text, is_empty_iff}
use mcp_ironclaw.Domain.Event.{Batch}
use mcp_ironclaw.Domain.Event.Validity.{
  BelongsTo, IsValidBatch, validate_batch_iff, verify_identity_iff,
}
use mcp_ironclaw.Services.Ingestion.{Publisher, Service, accept, check_batch}

-- A batch that the device itself sends, and whose events are its own and valid.
pub record IsAdmissible (authenticated : Text) (b : Batch) : Type 0 where
  pub known : authenticated ≢ []
  pub own : b.device_id ≡ authenticated
  pub valid : IsValidBatch b

check_batch_iff :
    (authenticated : Text) (b : Batch)
    → (check_batch authenticated b ≡ none) ↔ IsAdmissible authenticated b
unfolding check_batch
check_batch_iff authenticated b = (
  λ e. record {
    known = ground (arith, is_empty_iff authenticated);
    own = ground (arith, verify_identity_iff b authenticated);
    valid = ground (arith, validate_batch_iff b);
  },
  λ a.
      let owned =
        All-mono (BelongsTo b.device_id) (λ e. e.device_id ≡ authenticated) (λ e h. h.1 ∙ a.own)
          b.events a.valid.events_valid in
      ground (
        arith,
        is_empty_iff authenticated,
        verify_identity_iff b authenticated,
        validate_batch_iff b,
        a.known,
        a.own,
        a.valid,
        owned,
      ),
)

module _ {W : Type 0} (publish : Publisher W) where
  -- `Accept` succeeds exactly for an admissible batch that the publisher takes; the publisher sees
  -- nothing of any other batch, and gets an admissible one once, under its device as the partition
  -- key.
  pub accept_lem :
      (authenticated : Text) (b : Batch) (s : Service W)
      → let (s', result) = accept publish authenticated b s in
        ((result ≡ none)
          ↔ (IsAdmissible authenticated b × ((publish b.device_id b s.world).1 ≡ none)))
        × ((IsAdmissible authenticated b → ⊥) → s'.world ≡ s.world)
        × (IsAdmissible authenticated b → s'.world ≡ (publish b.device_id b s.world).0)
  unfolding accept
  accept_lem authenticated b s =
      let iff = check_batch_iff authenticated b in
      elim (Option-cases (check_batch authenticated b)) [
        | inr (e, f) ↦
            rw (f, accept)
              let refused : IsAdmissible authenticated b → ⊥ = λ a. ground (arith, iff.1 a) in
                ((λ h. cc, λ h. absurd (refused h.0)), λ _. refl, λ a. absurd (refused a))
        | inl f ↦
            rw (f, accept)
              let a = iff.0 f in
                elim (Option-cases (publish b.device_id b s.world).1) [
                  | inl g ↦
                      ((λ h. (a, g), λ h. ground arith), λ no. absurd (no a), λ _. ground arith)
                  | inr (x, g) ↦ (
                    (λ h. ground arith, λ h. ground arith),
                    λ no. absurd (no a),
                    λ _. ground arith,
                  )
                ]
      ]
