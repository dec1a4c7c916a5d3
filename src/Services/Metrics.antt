-- ===== src/Services/Metrics.antt =====
-- domain.MetricsRecorder, as the services of this repository use it: a recorder that may be absent,
-- and the samples that it has been given, the last one first.
use mcp_ironclaw.Prelude.{ℕ, Option, none, some, List, [], ◌∷◌, if◌then◌else◌}
use mcp_ironclaw.Go.Int64.{add64}
use mcp_ironclaw.Go.Text.{Text, text_eq}

abbrev pub Recorder : Type 0
Recorder = Option (List (Text × ℕ))

-- `if s.metrics == nil { return }` and then `s.metrics.Increment(name, delta)`
unfoldable pub record_sample : Text → ℕ → Recorder → Recorder
record_sample name delta none = none
record_sample name delta (some samples) = some ((name, delta) ∷ samples)

-- The sum of the samples of a name.
unfoldable pub sampled : Text → List (Text × ℕ) → ℕ
sampled name [] = 0
sampled name ((n, delta) ∷ rest) =
    let others = sampled name rest in if text_eq n name then add64 delta others else others
