-- ===== src/McpServer/Principal.antt =====
-- internal/mcpserver/principal.go. A context is what the code reads from it: the principal that it
-- carries, the token information of the authentication layer, and its error.
use mcp_ironclaw.Prelude.{
  Bool, true, false, not, ◌||◌, ◌&&◌, Option, none, some, List, [], ◌∷◌, if◌then◌else◌,
}
use mcp_ironclaw.Go.Text.{Text, codes, text_eq, is_empty}
use mcp_ironclaw.Domain.Errors.{Error, unauthenticated, forbidden, reject_if}

abbrev pub scope_admin : Text
scope_admin = codes "ironclaw:admin"

pub record Principal : Type 0 where
  pub user_id : Text
  pub scopes : List Text

pub record Context : Type 0 where
  pub principal : Option Principal
  pub token_info : Option Principal  -- the user and the scopes of auth.TokenInfo
  pub error : Option Error

abbrev pub has_scope : Text → List Text → Bool
has_scope name [] = false
has_scope name (s ∷ ss) = text_eq s name || has_scope name ss

unfoldable pub may_access : Principal → Text → Bool
may_access p user =
    if has_scope scope_admin p.scopes
    then true
    else not (is_empty p.user_id) && text_eq p.user_id user

-- PrincipalFrom
unfoldable pub principal_from : Context → Option Principal
principal_from ctx = elim (ctx.principal) [ some p ↦ some p | none ↦ ctx.token_info ]

-- Tools.authorise, with the option `requireAuth`
unfoldable pub authorise : Bool → Context → Text → Option Error
authorise require_auth ctx user = elim (principal_from ctx) [
  | none ↦ reject_if require_auth unauthenticated
  | some p ↦ reject_if (not (may_access p user)) forbidden
]
