-- ===== src/Domain/Key.antt =====
-- internal/domain/key.go: correlation keys, aggregate windows and the texts that identify them.
pub mod Identity
use mcp_ironclaw.Prelude.{ℕ, ◌+◌, ◌-◌, ◌^◌, List, [], ◌∷◌, ◌++◌, Bool, leb, if◌then◌else◌}
use mcp_ironclaw.Go.Text.{Text, codes}
use mcp_ironclaw.Go.Strconv.{format_int}

pub record CorrelationKey : Type 0 where
  pub user_id : Text
  pub device_id : Text
  pub process_id : ℕ  -- int32
  pub pod_id : Text

-- int64(x) of an int32
abbrev pub sign_extend : ℕ → ℕ
sign_extend x = if leb (2 ^ 31) x then x + 2 ^ 64 - 2 ^ 32 else x

unfoldable pub append : CorrelationKey → Text → Text
append k buffer =
    let pid = format_int (sign_extend k.process_id) in
    buffer ++ b'{' ∷ (k.user_id ++ b'}' ∷ b':' ∷ (k.device_id ++ b':' ∷ (pid ++ b':' ∷ k.pod_id)))

unfoldable pub to_string : CorrelationKey → Text
unfolding append
to_string k = append k []

abbrev pub shard_tag : CorrelationKey → Text
shard_tag k = k.user_id

unfoldable pub device_scope : CorrelationKey → Text
device_scope k = b'{' ∷ k.user_id ++ b'}' ∷ b':' ∷ k.device_id

pub record AggregateWindow : Type 0 where
  pub key : CorrelationKey
  pub open key use *
  pub window_id : ℕ  -- int64, as all the numbers below
  pub sequence : ℕ
  pub window_start : ℕ  -- time.Time
  pub window_end : ℕ
  pub count : ℕ
  pub error_count : ℕ
  pub bytes : ℕ
  pub p95_nanos : ℕ
  pub p99_nanos : ℕ
  pub max_nanos : ℕ

unfoldable pub window_identity : AggregateWindow → Text
window_identity w = append w.key [] ++ b'#' ∷ format_int w.window_id

unfoldable pub identity : AggregateWindow → Text
identity w = (append w.key [] ++ b'#' ∷ format_int w.window_id) ++ b'#' ∷ format_int w.sequence

pub record DeviceState : Type 0 where
  pub user_id : Text
  pub device_id : Text
  pub count : ℕ
  pub error_count : ℕ
  pub bytes : ℕ
  pub p95_nanos : ℕ
  pub p99_nanos : ℕ
  pub last_window_id : ℕ
  pub last_seen : ℕ  -- time.Time
  pub stale : Bool
