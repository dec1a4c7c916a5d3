-- ===== src/Services/Composites/Delivery.antt =====
-- What internal/app/fanout.go does with a window.
use mcp_ironclaw.Prelude.{◌≡◌, refl, ◌↔◌, Option, none, List, [], ◌∷◌, arith}
use mcp_ironclaw.Domain.Errors.{Error}
use mcp_ironclaw.Domain.Key.{AggregateWindow}
use mcp_ironclaw.Services.Emission.{WindowPublisher, first_failure}
use mcp_ironclaw.Services.Composites.{fan_out, fan_out_from}

module _ {W : Type 0} (w : AggregateWindow) where
  -- The world after every target has been given the window, in order, and whether each took it.
  abbrev pub after_all : List (WindowPublisher W) → W → W
  after_all [] x = x
  after_all (t ∷ ts) x = after_all ts (t w x).0

  abbrev pub AllTook : List (WindowPublisher W) → W → Type 0
  AllTook [] x = Unit
  AllTook (t ∷ ts) x = ((t w x).1 ≡ none) × AllTook ts (t w x).0

  fan_out_from_world :
      (ts : List (WindowPublisher W)) (first : Option Error) (x : W)
      → (fan_out_from ts first w x).0 ≡ after_all ts x
  unfolding fan_out_from
  fan_out_from_world [] first x = refl
  fan_out_from_world (t ∷ ts) first x =
      fan_out_from_world ts (first_failure first (t w x).1) (t w x).0

  fan_out_from-none :
      (ts : List (WindowPublisher W)) (first : Option Error) (x : W)
      → ((fan_out_from ts first w x).1 ≡ none) ↔ ((first ≡ none) × AllTook ts x)
  unfolding fan_out_from
  fan_out_from-none [] first x = ground arith
  fan_out_from-none (t ∷ ts) first x =
      ground (arith, fan_out_from-none ts (first_failure first (t w x).1) (t w x).0)

  -- Every target is given the window once, in order, whether or not an earlier one failed; the
  -- publication succeeds exactly when all targets took it.
  pub fan_out_lem :
      (ts : List (WindowPublisher W)) (x : W)
      → ((fan_out ts w x).0 ≡ after_all ts x) × (((fan_out ts w x).1 ≡ none) ↔ AllTook ts x)
  unfolding fan_out
  fan_out_lem ts x = (fan_out_from_world ts none x, ground (arith, fan_out_from-none ts none x))
