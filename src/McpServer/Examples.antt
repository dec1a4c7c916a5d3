-- ===== src/McpServer/Examples.antt =====
-- The theorems on the tools at concrete callers. The world counts the calls of the components.
use mcp_ironclaw.Prelude.{
  Option, arith, ℕ, ◌+◌, ◌≡◌, refl, ◌≢◌, true, false, none, some, [], inl, inr,
}
use mcp_ironclaw.Go.Text.{codes, is_empty, text_eq}
use mcp_ironclaw.Go.Map.{find, nat_eq}
use mcp_ironclaw.Domain.Errors.{Error, ok, err, device_not_found}
use mcp_ironclaw.Domain.Command.{Command, validate_command, command_valid, command_name}
use mcp_ironclaw.McpServer.Principal.{
  Principal, Context, principal_from, authorise, may_access, has_scope, scope_admin,
}
use mcp_ironclaw.McpServer.Tools.{
  Tools, DeviceStateOutput, UserDevicesOutput, device_state, user_devices,
}
use mcp_ironclaw.McpServer.Commands.{
  ResetCountersOutput, reset_counters, check_reset, reset_command, actor_of,
}
use mcp_ironclaw.McpServer.Watch.{begin_watch}
use mcp_ironclaw.McpServer.Access.{IsAllowed, forbidden_touches_nothing}
use mcp_ironclaw.McpServer.Attribution.{reset_counters_lem}

abbrev tools : Tools ℕ
tools = record {
  state = λ ctx user device n. (n + 1, err device_not_found);
  devices = none;
  metrics = none;
  commands = some (λ ctx c n. (n + 1, none));
  watcher = some (λ ctx user device n. (n + 1, none));
  require_auth = true;
  watch_slots = 2;
}

abbrev alice : Context
alice = record {
  principal = none;
  token_info = some (record { user_id = codes "alice"; scopes = [] });
  error = none;
}

alice_not_bob : IsAllowed true alice (codes "bob") → ⊥
unfolding principal_from
alice_not_bob (inl (p, e, inl a)) = ground arith
alice_not_bob (inl (p, e, inr (n, u))) = ground arith
alice_not_bob (inr (e, r)) = cc

forbidden_touches_nothing_example :
    let bob = codes "bob" in
    let d = codes "d" in
    (((device_state tools alice bob d 0).0 ≡ 0)
      × ((o : DeviceStateOutput) → (device_state tools alice bob d 0).1 ≢ ok o))
    × (((user_devices tools alice bob 10 0).0 ≡ 0)
        × ((o : UserDevicesOutput) → (user_devices tools alice bob 10 0).1 ≢ ok o))
    × (((reset_counters tools alice bob d bob 5 0).0 ≡ 0)
        × ((o : ResetCountersOutput) → (reset_counters tools alice bob d bob 5 0).1 ≢ ok o))
    × (((begin_watch tools alice bob d (0, 0)).0 ≡ (0, 0))
        × ((begin_watch tools alice bob d (0, 0)).1 ≢ none))
forbidden_touches_nothing_example =
    forbidden_touches_nothing tools alice (codes "bob") (codes "d") (codes "bob") 10 5 0 0
      alice_not_bob

-- Alice claims to act as `root`; the command carries her own name.
abbrev accepted : ResetCountersOutput
accepted = record { accepted = true; command = codes "reset_counters" }

alice_resets :
    (reset_counters tools alice (codes "alice") (codes "d") (codes "root") 5 0).1 ≡ ok accepted
unfolding reset_counters check_reset is_empty authorise principal_from may_access text_eq
    validate_command command_valid command_name actor_of find
alice_resets = refl

reset_counters_lem_example :
    let user = codes "alice" in
    let c = reset_command alice user (codes "d") (codes "root") 5 in
    ((publish : Context → Command → ℕ → ℕ × Option Error) × (tools.commands ≡ some publish)
      × (publish alice c 0
          ≡ ((reset_counters tools alice user (codes "d") (codes "root") 5 0).0, none)))
    × (validate_command c ≡ none)
    × IsAllowed true alice user
    × ((p : Principal)
        → principal_from alice ≡ some p
        → has_scope scope_admin p.scopes ≡ false
        → c.actor ≡ p.user_id)
reset_counters_lem_example =
    reset_counters_lem tools alice (codes "alice") (codes "d") (codes "root") 5 0 accepted
      alice_resets
