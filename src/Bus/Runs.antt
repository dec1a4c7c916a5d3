-- ===== src/Bus/Runs.antt =====
-- `deliver` of internal/bus/bus.go run without interleaving.
use mcp_ironclaw.Prelude.{ℕ, zero, suc, ◌≡◌, refl, List, ◌∷◌, [], inl, inr, Option-cases}
use mcp_ironclaw.Go.Map.{Map, nat_eq, find, put, remove}
use mcp_ironclaw.Bus.{
  Bus, Consumer, queue_at, take_value, count_retry, count_dead, deliver_from, deliver, receive,
}
use mcp_ironclaw.Bus.Lifecycle.{Phase, System, Hand, Step}
use mcp_ironclaw.Bus.Reachability.{Reachable}

module _ {T W : Type 0} (c : Consumer T W) (senders : Map ℕ (Phase T)) where
  -- The bus with no value in a hand, and with one.
  abbrev free : Bus T → W → System T W
  free b x = record { bus = b; senders = senders; hands = []; world = x }

  abbrev holding : Hand T → Bus T → W → System T W
  holding hand b x = record { bus = b; senders = senders; hands = (0, hand) ∷ []; world = x }

  deliver_from-Reachable :
      (n : ℕ) (v : T) (b : Bus T) (x : W)
      → Reachable c (holding (Hand.trying n v) b x)
      → let r = deliver_from c n v b x in Reachable c (free r.0 r.1)
  unfolding deliver_from find put remove
  deliver_from-Reachable zero v b x r =
      Reachable.step (Reachable.step r (Step.dying 0 v (holding (Hand.trying 0 v) b x) refl))
        (Step.burying 0 v (holding (Hand.burying v) (count_dead b) x) refl)
  deliver_from-Reachable (suc n) v b x r =
      let (x', failure) = c.handler v x in
      let handled =
        Reachable.step r (Step.handling 0 n v (holding (Hand.trying (suc n) v) b x) refl) in
      elim (Option-cases (c.handler v x).1) [
        | inl e ↦
            rw (e, deliver_from)
              (Reachable.step handled
                (Step.delivering 0 n v (holding (Hand.returned n v failure) b x') (rw e refl)))
        | inr (y, e) ↦ elim (Option-cases (c.context x')) [
          | inr (z, f) ↦
              rw (e, deliver_from, f)
                (Reachable.step handled (
                  Step.abandoning 0 n v y z (holding (Hand.returned n v failure) b x') (rw e refl)
                    f))
          | inl f ↦
              rw (e, deliver_from, f)
                (deliver_from-Reachable n v (count_retry n b) x' (
                  Reachable.step handled (
                    Step.retrying 0 n v y (holding (Hand.returned n v failure) b x') (rw e refl)
                      f)))
        ]
      ]

  -- A value that is taken and delivered without interleaving is a sequence of the steps of the bus:
  -- whatever holds of every state that the steps reach holds after `deliver`.
  pub receive-Reachable :
      (p : ℕ) (v : T) (rest : List T) (b : Bus T) (x : W)
      → queue_at p b.partitions ≡ v ∷ rest
      → Reachable c (free b x)
      → let r = receive c p v rest b x in Reachable c (free r.0 r.1)
  unfolding receive deliver find put
  receive-Reachable p v rest b x front r =
      deliver_from-Reachable b.config.max_attempts v (take_value p rest b) x
        (Reachable.step r (Step.taking 0 p v rest (free b x) refl front))
