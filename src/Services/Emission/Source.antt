-- ===== src/Services/Emission/Source.antt =====
-- internal/aggregate/aggregator.go fills the interface that internal/aggregator/service.go asks of
-- its window source.
use mathlib.Core.List.{Perm}
use mcp_ironclaw.Go.Map.Entries.{values}
use mcp_ironclaw.Prelude.{true, subst, ap, some}
use mcp_ironclaw.Aggregate.Aggregator.{
  QuantileSketch, Aggregator, ingest_batch, collect_windows_before, collect_all, commit, window_id,
  closed_before,
}
use mcp_ironclaw.Aggregate.Aggregator.Preservation.{Ready}
use mcp_ironclaw.Aggregate.Aggregator.TwoPhase.{collect-returns_pending, find-commit}
use mcp_ironclaw.Services.Emission.{WindowSource}
use mcp_ironclaw.Services.Emission.Retention.{IsWindowSource}

abbrev pub aggregator_source : (q : QuantileSketch) → WindowSource (Aggregator q.Sketch)
aggregator_source q = record {
  ingest_batch = ingest_batch q;
  collect_windows_before = collect_windows_before q;
  collect_all = collect_all q;
  commit = commit;
  shed = some (λ a. a.shed);
}

unfoldable pub aggregator_laws : (q : QuantileSketch) → IsWindowSource (aggregator_source q)
unfolding collect_windows_before collect_all
aggregator_laws q = record {
  Ready = Ready q;
  pending = λ a. a.pending;
  commit_forgets = find-commit;
  collects_before = λ t a a' ws ready e.
      subst (λ x. Perm ws (values x.pending)) (ap (λ p. p.0) e)
        (collect-returns_pending q (closed_before q (window_id a.config t)) a ws ready.0 ready.1
          (ap (λ p. p.1) e));
  collects_all = λ a a' ws ready e.
      subst (λ x. Perm ws (values x.pending)) (ap (λ p. p.0) e)
        (collect-returns_pending q (λ _. true) a ws ready.0 ready.1 (ap (λ p. p.1) e));
}
