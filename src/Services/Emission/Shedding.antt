-- ===== src/Services/Emission/Shedding.antt =====
-- The metric of shed events in internal/aggregator/service.go agrees with the source's counter.
use mcp_ironclaw.Prelude.{
  subst, sym, ◌∷◌, if◌then◌else◌, ◌≡◌, ap, ◌<◌, Option, none, some, List, ℕ, arith, inl, inr,
  Option-cases, ◌==◌,
}
use mcp_ironclaw.Go.Int64.{modulus, sub64}
use mcp_ironclaw.Go.Text.{text_eq_refl, Text, text_eq}
use mcp_ironclaw.Domain.Errors.{Error}
use mcp_ironclaw.Domain.Event.{Batch}
use mcp_ironclaw.Services.Metrics.{sampled, record_sample}
use mcp_ironclaw.Services.Emission.{
  metric_batches_consumed, record_metric, WindowSource, WindowPublisher, Service, handle_batch,
  record_shed, metric_events_shed,
}

-- The samples of shed events add up to what was last read of the source's counter.
pub record IsReported {S W : Type 0} (s : Service S W) : Type 0 where
  pub in_range : s.last_shed < modulus
  pub samples : List (Text × ℕ)
  pub recorder : s.metrics ≡ some samples
  pub agrees : sampled metric_events_shed samples ≡ s.last_shed

-- A sample of a delta brings the sum to the new reading.
report :
    {S W : Type 0} (s : Service S W) (now : ℕ)
    → now < modulus
    → IsReported s
    → IsReported
        (record_metric metric_events_shed (sub64 now s.last_shed) (record s { last_shed = now }))
unfolding sampled record_sample
report s now h r =
    let delta = sub64 now s.last_shed in
    record {
      in_range = ground arith;
      samples = if delta == 0 then r.samples else (metric_events_shed, delta) ∷ r.samples;
      recorder = ground (arith, r.recorder);
      agrees = ground (arith, r.agrees, r.in_range, text_eq_refl metric_events_shed);
    }

-- A sample of another metric leaves the sum as it is.
report_other :
    {S W : Type 0} (s : Service S W) (x : S)
    → IsReported s
    → IsReported (record_metric metric_batches_consumed 1 (record s { source = x }))
unfolding sampled record_sample text_eq
report_other s x r = record {
  in_range = r.in_range;
  samples = (metric_batches_consumed, 1) ∷ r.samples;
  recorder = ap (record_sample metric_batches_consumed 1) r.recorder;
  agrees = r.agrees;
}

kept :
    {S W : Type 0} (s : Service S W) (x : S) → IsReported s → IsReported (record s { source = x })
kept s x r = record {
  in_range = r.in_range;
  samples = r.samples;
  recorder = r.recorder;
  agrees = r.agrees;
}

module _ {S W : Type 0} (src : WindowSource S) (publish_window : WindowPublisher W) where
  record_shed-IsReported :
      (s : Service S W) (shed : S → ℕ)
      → src.shed ≡ some shed
      → shed s.source < modulus
      → IsReported s
      → IsReported (record_shed src publish_window s)
        × (◌≡◌ {A = Option Error} none none
            → (record_shed src publish_window s).last_shed
              ≡ shed (record_shed src publish_window s).source)
  unfolding record_shed
  record_shed-IsReported s shed e bound r =
      let now = shed s.source in
      let s' =
        record_metric metric_events_shed (sub64 now s.last_shed) (record s { last_shed = now }) in
      let same : record_shed src publish_window s ≡ s' = ground arith in
      (subst IsReported (sym same) (report s now bound r), λ h. ground arith)

  -- Each batch that the source takes is reported: after it, the samples of shed events add up to the
  -- counter of the source.
  pub handle_batch-IsReported :
      (ctx : Option Error) (b : Batch) (s : Service S W) (shed : S → ℕ)
      → src.shed ≡ some shed
      → ((x : S) → shed x < modulus)
      → IsReported s
      → IsReported (handle_batch src publish_window ctx b s).0
        × ((handle_batch src publish_window ctx b s).1 ≡ none
            → (handle_batch src publish_window ctx b s).0.last_shed
              ≡ shed (handle_batch src publish_window ctx b s).0.source)
  unfolding handle_batch record_shed
  handle_batch-IsReported (some x) b s shed e bound r = (r, λ h. cc)
  handle_batch-IsReported none b s shed e bound r =
      let (x, result) = src.ingest_batch b s.source in
      elim (Option-cases result) [
        | inr (y, f) ↦ rw (f, handle_batch) (kept s x r, λ h. cc)
        | inl f ↦
            let s1 = record_metric metric_batches_consumed 1 (record s { source = x }) in
            rw (f, handle_batch) (record_shed-IsReported s1 shed e (bound x) (report_other s x r))
      ]
