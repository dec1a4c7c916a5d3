-- ===== src/Metrics/Examples.antt =====
-- The theorems on the recorder with one sample and a buffer for one.
use mcp_ironclaw.Prelude.{◌≡◌, refl, true, [], ◌∷◌, arith}
use mcp_ironclaw.Go.Text.{codes}
use mcp_ironclaw.Metrics.{Sample, Async, new_async, enter}
use mcp_ironclaw.Metrics.Steps.{entering, Reachable, made, next}
use mcp_ironclaw.Metrics.Balance.{IsAccounted, Reachable-IsAccounted, sample_lost}

abbrev sample : Sample
sample = record { name = codes "kafka_published"; delta = 1 }

abbrev entered_one : Async
entered_one = enter sample (new_async [] 1)

entered_one-Reachable : Reachable 1 entered_one
entered_one-Reachable =
    next 0 1 (new_async [] 1) entered_one (made 1) (entering sample (new_async [] 1))

Reachable-IsAccounted_example : IsAccounted 1 entered_one
Reachable-IsAccounted_example =
    Reachable-IsAccounted 1 entered_one (omega arith) entered_one-Reachable

sample_lost_example :
    (b : Async) × Reachable 1 b
    × (b.stopped ≡ true)
    × (b.entered ≡ [])
    × (b.samples ≡ sample ∷ [])
    × (b.inner ≡ entered_one.inner)
    × (b.dropped ≡ entered_one.dropped)
unfolding enter new_async
sample_lost_example =
    sample_lost 1 entered_one sample entered_one-Reachable refl refl refl (omega arith)
