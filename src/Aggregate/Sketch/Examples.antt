-- ===== src/Aggregate/Sketch/Examples.antt =====
-- The theorems on the sketch, with floats that are hundredths.
use mcp_ironclaw.Prelude.{
  none, length, ℕ, ◌+◌, ◌-◌, ◌*◌, ◌/◌, ◌^◌, ◌==◌, ◌≡◌, refl, inl, false, [], arith, ltb, leb,
}
use mcp_ironclaw.Go.Map.{find, put, get_or, nat_eq}
use mcp_ironclaw.Go.Sort.{sort_by, insert}
use mcp_ironclaw.Domain.Errors.{ok}
use mcp_ironclaw.Go.Int64.{add64}
use mcp_ironclaw.Aggregate.Aggregator.{QuantileSketch, Aggregator, ingest_batch}
use mcp_ironclaw.Aggregate.Aggregator.Conservation.{held_events}
use mcp_ironclaw.Aggregate.Aggregator.Examples.{batch, batch-IsValid}
use mcp_ironclaw.Aggregate.Sketch.Interface.{
  Options, IsOrdered, sketch_of, new_aggregator, validate_options, ingest_batch-made,
}
use mcp_ironclaw.Aggregate.Sketch.{
  sort_by, FloatMath, Sketch, new_sketch, add, quantile, rank_of, max_int64, min_int64,
}
use mcp_ironclaw.Aggregate.Sketch.Invariant.{
  IsSketch, Reachable, made, next, added, Reachable-IsSketch,
}
use mcp_ironclaw.Aggregate.Sketch.Ranks.{element, all_values, quantile_lem}

abbrev hundredths : FloatMath
hundredths = record {
  Float = ℕ;
  zero = 0;
  one = 100;
  two = 200;
  max_int = 2 ^ 63 * 100;
  of_int = λ n. n * 100;
  to_int = λ a. a / 100;
  plus = λ a b. a + b;
  minus = λ a b. a - b;
  times = λ a b. a * b / 100;
  over = λ a b. a * 100 / b;
  power = λ a b. a * b / 100;
  log = λ a. a;
  ceil = λ a. (a + 99) / 100 * 100;
  floor = λ a. a / 100 * 100;
  round = λ a. (a + 50) / 100 * 100;
  less = ltb;
  at_least = λ a b. leb b a;
  same = ◌==◌;
  is_nan = λ a. false;
}

abbrev fresh : Sketch ℕ
fresh = record {
  relative_accuracy = 1;
  gamma = 102;
  log_gamma = 102;
  buckets = [];
  sorted = [];
  sorted_stale = false;
  zero_count = 0;
  count = 0;
  max = min_int64;
  min = max_int64;
}

-- Three values: 5, 700, and one that is not positive.
abbrev three : Sketch ℕ
three = add hundredths 0 (add hundredths 700 (add hundredths 5 fresh))

three-Reachable : Reachable hundredths three
unfolding new_sketch
three-Reachable =
    next _ _
      (next _ _ (next _ _ (made 1 fresh refl) (added 5 fresh)) (added 700 (add hundredths 5 fresh)))
      (added 0 (add hundredths 700 (add hundredths 5 fresh)))

Reachable-IsSketch_example : IsSketch three
Reachable-IsSketch_example = Reachable-IsSketch hundredths three three-Reachable

quantile_lem_example :
    (quantile hundredths 50 three).1
    ≡ ok (element (rank_of hundredths 50 three) (all_values hundredths three) three.max)
unfolding add put find get_or sort_by insert
quantile_lem_example =
    quantile_lem hundredths 50 three (inl refl) refl (omega arith) (omega arith) (omega arith)

abbrev options : Options ℕ
options = record {
  window_size = 10_000_000_000;
  relative_accuracy = 0;
  sequence_seed = 7;
  max_open_windows = 0;
}

hundredths-IsOrdered : IsOrdered hundredths
hundredths-IsOrdered = ((λ a b. ground arith), (λ a b. ground arith))

abbrev by_default : QuantileSketch
by_default = sketch_of hundredths 1 95 99 0

abbrev made_empty : Aggregator (Sketch ℕ)
made_empty = record {
  config = record { window_size = 10_000_000_000; max_open_windows = 0 };
  windows = [];
  pending = [];
  sequence = 7;
  shed = 0;
}

ingest_batch-made_example :
    let (a', r) = ingest_batch by_default batch made_empty in
    (r ≡ none)
    × (add64 (held_events by_default a') a'.shed
        ≡ add64 (held_events by_default made_empty) (0 + length batch.events))
unfolding new_aggregator validate_options
ingest_batch-made_example =
    ingest_batch-made hundredths 1 95 99 3 options made_empty made_empty batch hundredths-IsOrdered
      refl refl batch-IsValid
