-- ===== src/Domain/Command.antt =====
-- internal/domain/command.go
use mcp_ironclaw.Prelude.{ℕ, Bool, true, false, not, Option, none, some, [], ◌∷◌}
use mcp_ironclaw.Go.Text.{Text, codes, is_empty}
use mcp_ironclaw.Go.Map.{Map, find, nat_eq}
use mcp_ironclaw.Domain.Errors.{
  Error, ◌>>◌, reject_if, missing_device_id, missing_user_id, invalid_command, missing_actor,
}

-- CommandKind is a uint8.
abbrev pub command_unknown : ℕ
command_unknown = 0

abbrev pub command_reset_counters : ℕ
command_reset_counters = 1

abbrev pub command_quarantine_device : ℕ
command_quarantine_device = 2

unfoldable pub command_kind_names : Map ℕ Text
command_kind_names =
    (command_reset_counters, codes "reset_counters")
    ∷ (command_quarantine_device, codes "quarantine_device")
    ∷ []

unfoldable pub command_name : ℕ → Text
unfolding command_kind_names find
command_name k = elim (find k command_kind_names) [ some name ↦ name | none ↦ codes "unknown" ]

unfoldable pub command_valid : ℕ → Bool
unfolding command_kind_names find
command_valid k = elim (find k command_kind_names) [ some name ↦ true | none ↦ false ]

pub record Command : Type 0 where
  pub kind : ℕ
  pub user_id : Text
  pub device_id : Text
  pub actor : Text
  pub issued_at : ℕ  -- time.Time

unfoldable pub validate_command : Command → Option Error
validate_command c =
    reject_if (not (command_valid c.kind)) invalid_command
    >> reject_if (is_empty c.user_id) missing_user_id
    >> reject_if (is_empty c.device_id) missing_device_id
    >> reject_if (is_empty c.actor) missing_actor

abbrev pub command_shard_tag : Command → Text
command_shard_tag c = c.user_id
