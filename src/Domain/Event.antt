-- ===== src/Domain/Event.antt =====
-- internal/domain/event.go: events and batches, and what makes them valid.
pub mod Validity
use mcp_ironclaw.Prelude.{
  ℕ, suc, ◌+◌, ◌≡◌, refl, Bool, true, false, not, Option, none, some, List, [], ◌∷◌, if◌then◌else◌,
  length,
}
use mcp_ironclaw.Go.Int64.{is_negative}
use mcp_ironclaw.Go.Time
use mcp_ironclaw.Go.Text.{Text, codes, is_empty, text_eq}
use mcp_ironclaw.Go.Map.{Map, find, nat_eq}
use mcp_ironclaw.Domain.Errors.{
  Error, ◌>>◌, reject_if, missing_device_id, missing_user_id, invalid_kind, negative_latency,
  negative_bytes, zero_timestamp, device_mismatch, at_index,
}
use mcp_ironclaw.Domain.Key.{CorrelationKey}

-- EventKind is a uint8.
abbrev pub kind_unknown : ℕ
kind_unknown = 0

abbrev pub kind_syscall : ℕ
kind_syscall = 1

abbrev pub kind_network : ℕ
kind_network = 2

abbrev pub kind_process_exec : ℕ
kind_process_exec = 3

abbrev pub kind_process_exit : ℕ
kind_process_exit = 4

unfoldable pub event_kind_names : Map ℕ Text
event_kind_names =
    (kind_unknown, codes "unknown")
    ∷ (kind_syscall, codes "syscall")
    ∷ (kind_network, codes "network")
    ∷ (kind_process_exec, codes "process_exec")
    ∷ (kind_process_exit, codes "process_exit")
    ∷ []

unfoldable pub kind_name : ℕ → Text
unfolding event_kind_names find
kind_name k = elim (find k event_kind_names) [ some name ↦ name | none ↦ codes "unknown" ]

unfoldable pub kind_valid : ℕ → Bool
unfolding event_kind_names find
kind_valid k = elim (find k event_kind_names) [ some name ↦ true | none ↦ false ]

pub record Event : Type 0 where
  pub device_id : Text
  pub user_id : Text
  pub process_id : ℕ  -- int32
  pub pod_id : Text
  pub kind : ℕ
  pub observed_at : ℕ  -- time.Time
  pub latency_nanos : ℕ  -- int64
  pub bytes : ℕ  -- int64
  pub failed : Bool

unfoldable pub validate : Event → Option Error
validate e =
    reject_if (is_empty e.device_id) missing_device_id
    >> reject_if (is_empty e.user_id) missing_user_id
    >> reject_if (not (kind_valid e.kind)) invalid_kind
    >> reject_if (is_negative e.latency_nanos) negative_latency
    >> reject_if (is_negative e.bytes) negative_bytes
    >> reject_if (Time.is_zero e.observed_at) zero_timestamp

abbrev pub correlation_key : Event → CorrelationKey
correlation_key e = record {
  user_id = e.user_id;
  device_id = e.device_id;
  process_id = e.process_id;
  pod_id = e.pod_id;
}

pub record Batch : Type 0 where
  pub device_id : Text
  pub created_at : ℕ  -- time.Time
  pub events : List Event

abbrev wrap : ℕ → Option Error → Option Error
wrap i none = none
wrap i (some e) = some (at_index i e)

-- The loop of `Batch.Validate` from event `i`.
validate_events : Text → ℕ → List Event → Option Error
validate_events device i [] = none
validate_events device i (e ∷ es) =
    wrap i (validate e)
    >> wrap i (reject_if (not (text_eq e.device_id device)) device_mismatch)
    >> validate_events device (i + 1) es

unfoldable pub validate_batch : Batch → Option Error
unfolding validate_events
validate_batch b =
    reject_if (is_empty b.device_id) missing_device_id >> validate_events b.device_id 0 b.events

-- The loop of `VerifyIdentity` from event `i`.
verify_events : Text → ℕ → List Event → Option Error
verify_events authenticated i [] = none
verify_events authenticated i (e ∷ es) =
    wrap i (reject_if (not (text_eq e.device_id authenticated)) device_mismatch)
    >> verify_events authenticated (i + 1) es

unfoldable pub verify_identity : Batch → Text → Option Error
unfolding verify_events
verify_identity b authenticated =
    reject_if (not (text_eq b.device_id authenticated)) device_mismatch
    >> verify_events authenticated 0 b.events

abbrev pub len : Batch → ℕ
len b = length b.events
