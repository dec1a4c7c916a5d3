-- ===== src/McpServer/Access.antt =====
-- Whose telemetry the tools of internal/mcpserver touch.
use mcp_ironclaw.Prelude.{
  ℕ, ◌≡◌, refl, ◌≢◌, ◌⊎◌, inl, inr, Bool, true, false, none, some, [], arith, Option-cases,
  Bool-cases,
}
use mcp_ironclaw.Go.Text.{Text, is_empty_iff, text_eq_iff}
use mcp_ironclaw.Domain.Errors.{ok}
use mcp_ironclaw.McpServer.Principal.{
  Principal, Context, scope_admin, has_scope, may_access, principal_from, authorise,
}
use mcp_ironclaw.McpServer.Tools.{
  Tools, DeviceStateOutput, UserDevicesOutput, device_state, check_state, user_devices,
  check_listing,
}
use mcp_ironclaw.McpServer.Commands.{ResetCountersOutput, reset_counters, check_reset}
use mcp_ironclaw.McpServer.Watch.{begin_watch, check_watch}

-- The principal of the context is an administrator or the user itself; or there is no principal, and
-- the server asks for none.
abbrev pub IsAllowed : Bool → Context → Text → Type 0
IsAllowed require_auth ctx user =
    ((p : Principal) × (principal_from ctx ≡ some p)
      × ((has_scope scope_admin p.scopes ≡ true) ⊎ ((p.user_id ≢ []) × (p.user_id ≡ user))))
    ⊎ ((principal_from ctx ≡ none) × (require_auth ≡ false))

pub authorise-IsAllowed :
    (require_auth : Bool) (ctx : Context) (user : Text)
    → authorise require_auth ctx user ≡ none
    → IsAllowed require_auth ctx user
unfolding authorise may_access
authorise-IsAllowed require_auth ctx user h = elim (Option-cases (principal_from ctx)) [
  | inl e ↦ inr (e, ground arith)
  | inr (p, e) ↦ inl (
    p,
    e,
    elim (Bool-cases (has_scope scope_admin p.scopes)) [
      | inl a ↦ inl a
      | inr a ↦
          inr (ground (arith, is_empty_iff p.user_id), ground (arith, text_eq_iff p.user_id user))
    ],
  )
]

module _ {W : Type 0} (t : Tools W) where
  state_allowed :
      (ctx : Context) (user device : Text) (x : W)
      → (IsAllowed t.require_auth ctx user → ⊥)
      → ((device_state t ctx user device x).0 ≡ x)
        × ((o : DeviceStateOutput) → (device_state t ctx user device x).1 ≢ ok o)
  unfolding device_state check_state
  state_allowed ctx user device x denied = elim (Option-cases (check_state t ctx user device)) [
    | inl e ↦ absurd (denied (authorise-IsAllowed t.require_auth ctx user (ground arith)))
    | inr (f, e) ↦ rw (e, device_state) (refl, λ o h. cc)
  ]

  listing_allowed :
      (ctx : Context) (user : Text) (limit : ℕ) (x : W)
      → (IsAllowed t.require_auth ctx user → ⊥)
      → ((user_devices t ctx user limit x).0 ≡ x)
        × ((o : UserDevicesOutput) → (user_devices t ctx user limit x).1 ≢ ok o)
  unfolding user_devices check_listing
  listing_allowed ctx user limit x denied = elim (Option-cases (check_listing t ctx user)) [
    | inl e ↦ absurd (denied (authorise-IsAllowed t.require_auth ctx user (ground arith)))
    | inr (f, e) ↦ rw (e, user_devices) (refl, λ o h. cc)
  ]

  reset_allowed :
      (ctx : Context) (user device claimed : Text) (now : ℕ) (x : W)
      → (IsAllowed t.require_auth ctx user → ⊥)
      → ((reset_counters t ctx user device claimed now x).0 ≡ x)
        × ((o : ResetCountersOutput) → (reset_counters t ctx user device claimed now x).1 ≢ ok o)
  unfolding reset_counters check_reset
  reset_allowed ctx user device claimed now x denied =
      elim (Option-cases (check_reset t ctx user device claimed now)) [
        | inl e ↦ absurd (denied (authorise-IsAllowed t.require_auth ctx user (ground arith)))
        | inr (f, e) ↦ rw (e, reset_counters) (refl, λ o h. cc)
      ]

  watch_allowed :
      (ctx : Context) (user device : Text) (used : ℕ) (x : W)
      → (IsAllowed t.require_auth ctx user → ⊥)
      → ((begin_watch t ctx user device (used, x)).0 ≡ (used, x))
        × ((begin_watch t ctx user device (used, x)).1 ≢ none)
  unfolding begin_watch check_watch
  watch_allowed ctx user device used x denied =
      elim (Option-cases (check_watch t ctx user device)) [
        | inl e ↦ absurd (denied (authorise-IsAllowed t.require_auth ctx user (ground arith)))
        | inr (f, e) ↦ rw (e, begin_watch) (refl, λ h. cc)
      ]

  -- For a caller who may not access a user, every tool that names the user fails, and neither reads
  -- nor writes anything: the readers, the publisher and the watcher are not called, and no slot is
  -- taken.
  pub forbidden_touches_nothing :
      (ctx : Context) (user device claimed : Text) (limit now used : ℕ) (x : W)
      → (IsAllowed t.require_auth ctx user → ⊥)
      → (((device_state t ctx user device x).0 ≡ x)
          × ((o : DeviceStateOutput) → (device_state t ctx user device x).1 ≢ ok o))
        × (((user_devices t ctx user limit x).0 ≡ x)
            × ((o : UserDevicesOutput) → (user_devices t ctx user limit x).1 ≢ ok o))
        × (((reset_counters t ctx user device claimed now x).0 ≡ x)
            × ((o : ResetCountersOutput)
                → (reset_counters t ctx user device claimed now x).1 ≢ ok o))
        × (((begin_watch t ctx user device (used, x)).0 ≡ (used, x))
            × ((begin_watch t ctx user device (used, x)).1 ≢ none))
  forbidden_touches_nothing ctx user device claimed limit now used x denied = (
    state_allowed ctx user device x denied,
    listing_allowed ctx user limit x denied,
    reset_allowed ctx user device claimed now x denied,
    watch_allowed ctx user device used x denied,
  )
