-- ===== src/Domain/Event/Validity.antt =====
-- What `Validate` and `VerifyIdentity` accept, against predicates that state it.
use mcp_ironclaw.Prelude.{ℕ, ◌+◌, ◌≤◌, ◌<◌, ◌≡◌, ◌≢◌, ◌↔◌, true, none, List, [], ◌∷◌, arith, All}
use mcp_ironclaw.Go.Int64.{sign_bit}
use mcp_ironclaw.Go.Text.{Text, is_empty_iff, text_eq_iff}
use mcp_ironclaw.Domain.Event.{
  Event, Batch, kind_valid, validate, validate_events, validate_batch, verify_events,
  verify_identity,
}

pub record IsValid (e : Event) : Type 0 where
  pub has_device : e.device_id ≢ []
  pub has_user : e.user_id ≢ []
  pub known_kind : e.kind ≤ 4
  pub latency : e.latency_nanos < sign_bit
  pub size : e.bytes < sign_bit
  pub observed : e.observed_at ≢ 0

pub kind_valid_iff : (k : ℕ) → (kind_valid k ≡ true) ↔ (k ≤ 4)
unfolding kind_valid
kind_valid_iff k = ground arith

-- An event passes `Validate` exactly when it names its device and its user, has one of the five
-- kinds, a latency and a size that are not negative, and a timestamp.
pub validate_iff : (e : Event) → (validate e ≡ none) ↔ IsValid e
unfolding validate
validate_iff e =
    ground (arith, is_empty_iff e.device_id, is_empty_iff e.user_id, kind_valid_iff e.kind)

abbrev pub BelongsTo : Text → Event → Type 0
BelongsTo device e = IsValid e × (e.device_id ≡ device)

validate_events_iff :
    (device : Text) (i : ℕ) (es : List Event)
    → (validate_events device i es ≡ none) ↔ All (BelongsTo device) es
unfolding validate_events
validate_events_iff device i [] = ground arith
validate_events_iff device i (e ∷ es) =
    ground
      (arith, validate_iff e, text_eq_iff e.device_id device, validate_events_iff device (i + 1) es)

pub record IsValidBatch (b : Batch) : Type 0 where
  pub has_device : b.device_id ≢ []
  pub events_valid : All (BelongsTo b.device_id) b.events

-- A batch passes `Validate` exactly when it names its device, and all its events are valid and carry
-- that device.
pub validate_batch_iff : (b : Batch) → (validate_batch b ≡ none) ↔ IsValidBatch b
unfolding validate_batch
validate_batch_iff b =
    ground (arith, is_empty_iff b.device_id, validate_events_iff b.device_id 0 b.events)

verify_events_iff :
    (a : Text) (i : ℕ) (es : List Event)
    → (verify_events a i es ≡ none) ↔ All (λ e. e.device_id ≡ a) es
unfolding verify_events
verify_events_iff a i [] = ground arith
verify_events_iff a i (e ∷ es) =
    ground (arith, text_eq_iff e.device_id a, verify_events_iff a (i + 1) es)

-- A batch passes `VerifyIdentity` exactly when it and each of its events name the authenticated
-- device.
pub verify_identity_iff :
    (b : Batch) (a : Text)
    → (verify_identity b a ≡ none) ↔ ((b.device_id ≡ a) × All (λ e. e.device_id ≡ a) b.events)
unfolding verify_identity
verify_identity_iff b a = ground (arith, text_eq_iff b.device_id a, verify_events_iff a 0 b.events)
