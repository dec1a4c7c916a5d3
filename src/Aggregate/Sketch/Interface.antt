-- ===== src/Aggregate/Sketch/Interface.antt =====
-- `New` of internal/aggregate/aggregator.go, and the sketch of sketch.go that an aggregator uses when its
-- configuration names none.
use mcp_ironclaw.Prelude.{
  ℕ, ◌+◌, ◌≡◌, ◌==◌, false, inl, inr, ◌||◌, not, Option, none, some, [], arith, length, All,
  if◌then◌else◌,
}
use mcp_ironclaw.Go.Int64.{add64, is_positive, is_negative}
use mcp_ironclaw.Domain.Errors.{
  Error, Result, ok, err, ◌>>◌, reject_if, invalid_window_size, invalid_accuracy,
  invalid_key_ceiling, Result-cases,
}
use mcp_ironclaw.Domain.Event.{Batch}
use mcp_ironclaw.Domain.Event.Validity.{IsValid}
use mcp_ironclaw.Aggregate.Aggregator.{QuantileSketch, Aggregator, ingest_batch}
use mcp_ironclaw.Aggregate.Aggregator.Conservation.{held_events}
use mcp_ironclaw.Aggregate.Aggregator.Intake.{ingest_batch-accounts}
use mcp_ironclaw.Aggregate.Sketch.{Sketch, FloatMath, new_sketch, add, quantile, max_of}

-- The configuration, less its factory.
pub record Options (F : Type 0) : Type 0 where
  pub window_size : ℕ  -- time.Duration
  pub relative_accuracy : F
  pub sequence_seed : ℕ  -- int64
  pub max_open_windows : ℕ  -- int

module _ (f : FloatMath) where
  open f use {Float}

  unfoldable pub validate_options : Options Float → Option Error
  validate_options o =
      reject_if (not (is_positive o.window_size)) invalid_window_size
      >> reject_if (f.less o.relative_accuracy f.zero || f.at_least o.relative_accuracy f.one)
          invalid_accuracy
      >> reject_if (is_negative o.max_open_windows) invalid_key_ceiling

  -- The accuracy that `New` settles for.
  abbrev pub accuracy_of : Float → Float → Float
  accuracy_of default_accuracy accuracy =
      if f.same accuracy f.zero then default_accuracy else accuracy

  -- New, at a reading of the clock.
  unfoldable pub new_aggregator : {S : Type 0} → Float → ℕ → Options Float → Result (Aggregator S)
  new_aggregator default_accuracy now o =
      let settled = record o {
        relative_accuracy = accuracy_of default_accuracy o.relative_accuracy;
      } in
      elim (validate_options settled) [
        | some e ↦ err e
        | none ↦ ok (record {
          config = record { window_size = o.window_size; max_open_windows = o.max_open_windows };
          windows = [];
          pending = [];
          sequence = if o.sequence_seed == 0 then now else o.sequence_seed;
          shed = 0;
        })
      ]

  -- The sketches of the factory that `New` makes for an accuracy. The two quantiles are the constants of
  -- the closing of a window.
  abbrev pub sketch_of : Float → Float → Float → Float → QuantileSketch
  sketch_of default_accuracy q95 q99 accuracy = record {
    Float = Float;
    q95 = q95;
    q99 = q99;
    Sketch = Sketch Float;
    new_sketch = new_sketch f (accuracy_of default_accuracy accuracy);
    add = add f;
    quantile = quantile f;
    max = max_of;
  }

  -- How the comparisons of floats go together, for NaN too.
  abbrev pub IsOrdered : Type 0
  IsOrdered =
      ((a b : Float) → f.at_least a b ≡ (f.less b a || f.same a b))
      × ((a b : Float) → f.same a b ≡ f.same b a)

  new_sketch-made :
      {S : Type 0} (default_accuracy : Float) (now : ℕ) (o : Options Float) (a : Aggregator S)
      → IsOrdered
      → f.at_least f.zero default_accuracy ≡ false
      → new_aggregator default_accuracy now o ≡ ok a
      → (s : Sketch Float) × (new_sketch f (accuracy_of default_accuracy o.relative_accuracy)
          ≡ ok s)
  unfolding new_aggregator validate_options new_sketch
  new_sketch-made d now o a order default made =
      elim (Result-cases (new_sketch f (accuracy_of d o.relative_accuracy))) [
        | inr (s, e) ↦ (s, e)
        | inl (x, e) ↦ absurd (
            ground (
              arith,
              made,
              e,
              default,
              order.0 f.zero o.relative_accuracy,
              order.1 f.zero o.relative_accuracy,
            ))
      ]

  -- An aggregator that `New` has made takes in every batch of valid events, at any later state: with the
  -- sketches of the default factory none of them fails, and each event is either added to the counts or
  -- to the number of events shed. The default accuracy must be above zero, and the comparisons of floats
  -- go together as IEEE 754 says.
  pub ingest_batch-made :
      (default_accuracy q95 q99 : Float) (now : ℕ) (o : Options Float)
      (made a : Aggregator (Sketch Float)) (b : Batch)
      → IsOrdered
      → f.at_least f.zero default_accuracy ≡ false
      → new_aggregator default_accuracy now o ≡ ok made
      → All IsValid b.events
      → let q = sketch_of default_accuracy q95 q99 o.relative_accuracy in
        let (a', r) = ingest_batch q b a in
        (r ≡ none)
        × (add64 (held_events q a') a'.shed ≡ add64 (held_events q a) (a.shed + length b.events))
  ingest_batch-made d q95 q99 now o made a b order default m valid =
      let (s, e) = new_sketch-made d now o made order default m in
      ingest_batch-accounts (sketch_of d q95 q99 o.relative_accuracy) s e b a valid
