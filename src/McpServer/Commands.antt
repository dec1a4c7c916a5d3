-- ===== src/McpServer/Commands.antt =====
-- internal/mcpserver/tools.go: `ResetCounters`.
use mcp_ironclaw.Prelude.{ℕ, Bool, true, not, ◌&&◌, Option, none, some, if◌then◌else◌}
use mcp_ironclaw.Go.Text.{Text, is_empty}
use mcp_ironclaw.Domain.Errors.{
  Error, Result, ok, err, ◌>>◌, reject_if, missing_claimed_actor, writes_disabled,
}
use mcp_ironclaw.Domain.Command.{Command, validate_command, command_reset_counters, command_name}
use mcp_ironclaw.McpServer.Principal.{Context, scope_admin, has_scope, principal_from, authorise}
use mcp_ironclaw.McpServer.Tools.{
  Tools, check_device, check_identifiers, validate_identifier, absent,
}

pub record ResetCountersOutput : Type 0 where
  pub accepted : Bool
  pub command : Text

-- Tools.actor: who a command is attributed to.
unfoldable pub actor_of : Context → Text → Text
actor_of ctx claimed = elim (principal_from ctx) [
  | none ↦ claimed
  | some p ↦
      if is_empty p.user_id
      then claimed
      else if has_scope scope_admin p.scopes && not (is_empty claimed)
      then claimed
      else p.user_id
]

-- The command that `ResetCounters` issues at an instant.
abbrev pub reset_command : Context → Text → Text → Text → ℕ → Command
reset_command ctx user device claimed now = record {
  kind = command_reset_counters;
  user_id = user;
  device_id = device;
  actor = actor_of ctx claimed;
  issued_at = now;
}

abbrev pub reset_result : Command → Option Error → Result ResetCountersOutput
reset_result c (some e) = err e
reset_result c none = ok (record { accepted = true; command = command_name c.kind })

module _ {W : Type 0} (t : Tools W) where
  -- The checks of `ResetCounters` before the publication.
  unfoldable pub check_reset : Context → Text → Text → Text → ℕ → Option Error
  check_reset ctx user device claimed now =
      absent t.commands writes_disabled
      >> check_device user device
      >> reject_if (is_empty claimed) missing_claimed_actor
      >> check_identifiers user device
      >> validate_identifier claimed
      >> authorise t.require_auth ctx user
      >> validate_command (reset_command ctx user device claimed now)

  abbrev pub publish_with :
      Option (Context → Command → W → W × Option Error) → Context → Command → W → W × Option Error
  publish_with (some publish) ctx c x = publish ctx c x
  publish_with none ctx c x = (x, some writes_disabled)

  -- Tools.ResetCounters, with the instant that the clock gives
  unfoldable pub reset_counters :
      Context → Text → Text → Text → ℕ → W → W × Result ResetCountersOutput
  reset_counters ctx user device claimed now x =
      let c = reset_command ctx user device claimed now in
      let (x', result) = publish_with t.commands ctx c x in
      elim (check_reset ctx user device claimed now) [
        | some e ↦ (x, err e)
        | none ↦ (x', reset_result c result)
      ]
