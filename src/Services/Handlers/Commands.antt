-- ===== src/Services/Handlers/Commands.antt =====
-- Which commands internal/commands/service.go carries out.
use mcp_ironclaw.Prelude.{
  ◌≡◌, refl, sym, subst, ◌≢◌, ◌↔◌, ◌==◌, true, Option, none, some, [], arith, Option-cases,
  Bool-cases, inl, inr,
}
use mcp_ironclaw.Go.Text.{is_empty_iff}
use mcp_ironclaw.Domain.Errors.{Error}
use mcp_ironclaw.Domain.Command.{Command, validate_command, command_valid, command_reset_counters}
use mcp_ironclaw.Services.Handlers.{Handler, DeviceResetter, handle_command, dispatch, finish}

-- A reset that names its user, its device and who ordered it.
pub record IsReset (c : Command) : Type 0 where
  pub kind : c.kind ≡ command_reset_counters
  pub user : c.user_id ≢ []
  pub device : c.device_id ≢ []
  pub actor : c.actor ≢ []

validate_command_iff :
    (c : Command)
    → (validate_command c ≡ none)
      ↔ ((command_valid c.kind ≡ true) × (c.user_id ≢ []) × (c.device_id ≢ []) × (c.actor ≢ []))
unfolding validate_command
validate_command_iff c =
    ground (arith, is_empty_iff c.user_id, is_empty_iff c.device_id, is_empty_iff c.actor)

reset_valid : command_valid command_reset_counters ≡ true
unfolding command_valid
reset_valid = refl

IsReset-validate : (c : Command) → IsReset c → validate_command c ≡ none
IsReset-validate c r =
    (validate_command_iff c).1
      (subst (λ k. command_valid k ≡ true) (sym r.kind) reset_valid, r.user, r.device, r.actor)

validate-IsReset :
    (c : Command) → validate_command c ≡ none → c.kind ≡ command_reset_counters → IsReset c
validate-IsReset c e k =
    let (_, u, d, a) = (validate_command_iff c).0 e in
    record { kind = k; user = u; device = d; actor = a }

finish_lem :
    {W : Type 0} (result : Option Error) (s : Handler W)
    → ((finish result s).0.world ≡ s.world) × ((finish result s).1 ≡ result)
finish_lem none s = (refl, refl)
finish_lem (some e) s = (refl, refl)

-- `HandleCommand` touches the device state for a complete reset command only, and then resets that
-- device once; it succeeds exactly when that reset does. Every other command, the valid quarantine
-- included, fails and changes nothing.
pub handle_command_lem :
    {W : Type 0} (reset : DeviceResetter W) (c : Command) (s : Handler W)
    → let (s', result) = handle_command reset c s in
      (IsReset c
        → (s'.world ≡ (reset c.user_id c.device_id s.world).0)
          × (result ≡ (reset c.user_id c.device_id s.world).1))
      × ((IsReset c → ⊥) → (s'.world ≡ s.world) × (result ≢ none))
unfolding handle_command dispatch
handle_command_lem reset c s = elim (Option-cases (validate_command c)) [
  | inr (x, e) ↦
      rw (e, handle_command)
        (λ r. absurd (ground (arith, IsReset-validate c r)), λ no. (refl, λ h. cc))
  | inl e ↦ elim (Bool-cases (c.kind == command_reset_counters)) [
    | inr k ↦
        rw (e, handle_command, k, dispatch)
          (λ r. absurd (ground (arith, r.kind)), λ no. (refl, λ h. cc))
    | inl k ↦
        let r = validate-IsReset c e (ground arith) in
        rw (e, handle_command, k, dispatch)
          (λ _. finish_lem (reset c.user_id c.device_id s.world).1 _, λ no. absurd (no r))
  ]
]
