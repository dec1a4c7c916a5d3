-- ===== src/Aggregate/WindowKey.antt =====
-- The keys of open windows in internal/aggregate/aggregator.go, and the order in which they are
-- emitted.
use mcp_ironclaw.Prelude.{
  ℕ, ◌%◌, ◌^◌, ◌+◌, ◌≡◌, ◌↔◌, Bool, true, not, ◌&&◌, arith, ltb, ◌==◌, if◌then◌else◌,
}
use mcp_ironclaw.Go.Int64.{slt}
use mcp_ironclaw.Go.Text.{text_eq, text_eq_iff, text_lt}
use mcp_ironclaw.Go.Map.{Eq}
use mcp_ironclaw.Domain.Key.{CorrelationKey}

pub record WindowKey : Type 0 where
  pub correlation : CorrelationKey
  pub open correlation use *
  pub window_id : ℕ  -- int64

-- k == other
unfoldable pub same_key : WindowKey → WindowKey → Bool
same_key k l =
    text_eq k.user_id l.user_id
    && text_eq k.device_id l.device_id
    && k.process_id == l.process_id
    && text_eq k.pod_id l.pod_id
    && k.window_id == l.window_id

pub same_key_iff : (k l : WindowKey) → (same_key k l ≡ true) ↔ (k ≡ l)
unfolding same_key
same_key_iff k l = ground (
  arith,
  text_eq_iff k.user_id l.user_id,
  text_eq_iff k.device_id l.device_id,
  text_eq_iff k.pod_id l.pod_id,
)

instance abbrev pub window_key_eq : Eq WindowKey
window_key_eq = record { beq = same_key; beq_iff = same_key_iff }

-- a < b, for two int32
abbrev slt32 : ℕ → ℕ → Bool
slt32 a b = ltb ((a + 2 ^ 31) % 2 ^ 32) ((b + 2 ^ 31) % 2 ^ 32)

-- func (k windowKey) before(other windowKey) bool
unfoldable pub before : WindowKey → WindowKey → Bool
before k other =
    if not (k.window_id == other.window_id)
    then slt k.window_id other.window_id
    else if not (text_eq k.user_id other.user_id)
    then text_lt k.user_id other.user_id
    else if not (text_eq k.device_id other.device_id)
    then text_lt k.device_id other.device_id
    else if not (k.process_id == other.process_id)
    then slt32 k.process_id other.process_id
    else text_lt k.pod_id other.pod_id
