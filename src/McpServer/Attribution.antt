-- ===== src/McpServer/Attribution.antt =====
-- What `ResetCounters` of internal/mcpserver/tools.go orders, and in whose name.
use mcp_ironclaw.Prelude.{
  Bool, ◌≡◌, ◌≢◌, inl, inr, false, Option, none, some, [], ℕ, arith, Option-cases,
}
use mcp_ironclaw.Go.Text.{Text, is_empty_iff}
use mcp_ironclaw.Domain.Errors.{Error, ok}
use mcp_ironclaw.Domain.Command.{Command, validate_command}
use mcp_ironclaw.McpServer.Principal.{Principal, Context, scope_admin, has_scope, principal_from}
use mcp_ironclaw.McpServer.Tools.{Tools}
use mcp_ironclaw.McpServer.Commands.{
  ResetCountersOutput, reset_counters, check_reset, reset_command, publish_with, actor_of,
}
use mcp_ironclaw.McpServer.Access.{IsAllowed, authorise-IsAllowed}

-- A caller who is no administrator and may access a user has a name.
allowed_user :
    (require_auth : Bool) (ctx : Context) (user : Text) (p : Principal)
    → principal_from ctx ≡ some p
    → has_scope scope_admin p.scopes ≡ false
    → IsAllowed require_auth ctx user
    → p.user_id ≢ []
allowed_user require_auth ctx user p q a (inl (p', q', inl b)) = ground arith
allowed_user require_auth ctx user p q a (inl (p', q', inr (n, _))) = ground arith
allowed_user require_auth ctx user p q a (inr (q', _)) = ground arith

own_actor :
    (ctx : Context) (claimed : Text) (p : Principal)
    → principal_from ctx ≡ some p
    → has_scope scope_admin p.scopes ≡ false
    → p.user_id ≢ []
    → actor_of ctx claimed ≡ p.user_id
unfolding actor_of
own_actor ctx claimed p q a n = ground (arith, is_empty_iff p.user_id)

module _ {W : Type 0} (t : Tools W) where
  publish_with-ok :
      (ctx : Context) (c : Command) (x x' : W)
      → (publish_with t t.commands ctx c x).0 ≡ x'
      → (publish_with t t.commands ctx c x).1 ≡ none
      → (publish : Context → Command → W → W × Option Error) × (t.commands ≡ some publish)
        × (publish ctx c x ≡ (x', none))
  publish_with-ok ctx c x x' h g = elim (Option-cases t.commands) [
    | inl e ↦ absurd (ground arith)
    | inr (publish, e) ↦ (publish, e, ground arith)
  ]

  -- An accepted reset has published one valid reset command, for the user and the device that were
  -- named, by a caller who may access the user: there is a publisher, it was called once with the
  -- command, and it succeeded. Unless the caller is an administrator, the command is in the name of
  -- its own principal, whatever actor it claims.
  pub reset_counters_lem :
      (ctx : Context) (user device claimed : Text) (now : ℕ) (x : W) (o : ResetCountersOutput)
      → (reset_counters t ctx user device claimed now x).1 ≡ ok o
      → let c = reset_command ctx user device claimed now in
        ((publish : Context → Command → W → W × Option Error) × (t.commands ≡ some publish)
          × (publish ctx c x ≡ ((reset_counters t ctx user device claimed now x).0, none)))
        × (validate_command c ≡ none)
        × IsAllowed t.require_auth ctx user
        × ((p : Principal)
            → principal_from ctx ≡ some p
            → has_scope scope_admin p.scopes ≡ false
            → c.actor ≡ p.user_id)
  unfolding reset_counters check_reset
  reset_counters_lem ctx user device claimed now x o h =
      elim (Option-cases (check_reset t ctx user device claimed now)) [
        | inr (f, e) ↦ absurd (ground arith)
        | inl e ↦
            let c = reset_command ctx user device claimed now in
            let published : (publish_with t t.commands ctx c x).1 ≡ none = ground arith in
            let allowed = authorise-IsAllowed t.require_auth ctx user (ground arith) in
            let same : (publish_with t t.commands ctx c x).0
                ≡ (reset_counters t ctx user device claimed now x).0 =
              ground arith in
            (
              publish_with-ok ctx c x _ same published,
              ground arith,
              allowed,
              λ p q a.
                  own_actor ctx claimed p q a (allowed_user t.require_auth ctx user p q a allowed),
            )
      ]
