-- ===== src/Services/Composites/Fallback.antt =====
-- What a reader of internal/app/fallback.go may rely on.
use mcp_ironclaw.Prelude.{◌≡◌, refl, ◌⊎◌, inl, inr, true, false, arith, Bool-cases}
use mcp_ironclaw.Domain.Errors.{Error, Result, ok, err, is_device_not_found}
use mcp_ironclaw.Domain.Key.{DeviceState}
use mcp_ironclaw.Services.Composites.{fallback_device_state}

-- A state that is returned is the primary's own, or it is the archive's, marked as stale, and the
-- primary has failed; a device that the primary does not know is never answered from the archive.
-- An error is always the primary's.
pub fallback_device_state_lem :
    (primary archive : Result DeviceState)
    → ((s : DeviceState)
        → fallback_device_state primary archive ≡ ok s
        → (primary ≡ ok s)
          ⊎ ((e : Error) × (a : DeviceState) × (primary ≡ err e)
              × (is_device_not_found e ≡ false)
              × (archive ≡ ok a)
              × (s ≡ record a { stale = true })))
      × ((e : Error) → fallback_device_state primary archive ≡ err e → primary ≡ err e)
unfolding fallback_device_state
fallback_device_state_lem (ok p) archive = (λ s h. inl h, λ e h. ground arith)
fallback_device_state_lem (err x) (err y) = (λ s h. ground arith, λ e h. ground arith)
fallback_device_state_lem (err x) (ok a) = (
  λ s h. elim (Bool-cases (is_device_not_found x)) [
    | inl n ↦ absurd (ground arith)
    | inr n ↦ inr (x, a, refl, n, refl, ground arith)
  ],
  λ e h. ground arith,
)
