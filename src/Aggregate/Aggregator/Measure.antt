-- ===== src/Aggregate/Aggregator/Measure.antt =====
-- Quantities that events add to windows, and how each step of the aggregator moves them.
use mcp_ironclaw.Prelude.{
  ℕ, ◌≡◌, refl, ◌∙◌, ◌⊎◌, inl, inr, none, some, arith, List, [], ◌∷◌, ◌++◌, if◌then◌else◌,
}
use mcp_ironclaw.Go.Int64.{add64}
use mcp_ironclaw.Go.Map.{
  find, string_eq, total, total-lt, total-put_new, total-put_old, total-remove, put, remove,
}
use mcp_ironclaw.Go.Map.Entries.{Entries-find}
use mcp_ironclaw.Domain.Errors.{Result-cases}
use mcp_ironclaw.Domain.Event.{Event}
use mcp_ironclaw.Domain.Key.{AggregateWindow}
use mcp_ironclaw.Aggregate.WindowKey.{WindowKey, window_key_eq}
use mcp_ironclaw.Aggregate.Aggregator.{
  QuantileSketch, WindowState, Aggregator, observe, store, emitted, move, cached, close_one,
  close_all,
}
use mcp_ironclaw.Aggregate.Aggregator.Cases.{close_one_cases, empty_state}
use mcp_ironclaw.Aggregate.Aggregator.Invariant.{HasId, emitted-fresh}
use mcp_ironclaw.Aggregate.Aggregator.Preservation.{Ready, one_left, close_one-Ready}

-- A quantity of an open window, with what it becomes in an emission and what an event adds to it.
pub record Measure (q : QuantileSketch) : Type 0 where
  pub of_state : WindowState q.Sketch → ℕ
  pub of_window : AggregateWindow → ℕ
  pub of_event : Event → ℕ
  pub emits :
      (k : WindowKey) (a : Aggregator q.Sketch) (s : WindowState q.Sketch) (p95 p99 largest : ℕ)
      → of_window (emitted q k a s p95 p99 largest) ≡ of_state s
  pub caches :
      (s : WindowState q.Sketch) (sketch : q.Sketch)
      → of_state (record s { sketch = sketch }) ≡ of_state s
  pub observes :
      (e : Event) (s : WindowState q.Sketch)
      → add64 0 (of_state (observe q e s)) ≡ add64 (of_state s) (of_event e)
  pub starts : (s : q.Sketch) → of_state (empty_state q s) ≡ 0

abbrev pub failures : Event → ℕ
failures e = if e.failed then 1 else 0

module _ (q : QuantileSketch) where
  open q use {Sketch}

  pub count-emitted :
      (k : WindowKey) (a : Aggregator Sketch) (s : WindowState Sketch) (p95 p99 largest : ℕ)
      → (emitted q k a s p95 p99 largest).count ≡ s.count
  unfolding emitted
  count-emitted k a s p95 p99 largest = refl

  pub error_count-emitted :
      (k : WindowKey) (a : Aggregator Sketch) (s : WindowState Sketch) (p95 p99 largest : ℕ)
      → (emitted q k a s p95 p99 largest).error_count ≡ s.error_count
  unfolding emitted
  error_count-emitted k a s p95 p99 largest = refl

  pub bytes-emitted :
      (k : WindowKey) (a : Aggregator Sketch) (s : WindowState Sketch) (p95 p99 largest : ℕ)
      → (emitted q k a s p95 p99 largest).bytes ≡ s.bytes
  unfolding emitted
  bytes-emitted k a s p95 p99 largest = refl

  pub count-observe :
      (e : Event) (s : WindowState Sketch) → add64 0 (observe q e s).count ≡ add64 s.count 1
  unfolding observe
  count-observe e s = omega arith

  pub bytes-observe :
      (e : Event) (s : WindowState Sketch) → add64 0 (observe q e s).bytes ≡ add64 s.bytes e.bytes
  unfolding observe
  bytes-observe e s = omega arith

  pub failures-observe :
      (e : Event) (s : WindowState Sketch)
      → add64 0 (observe q e s).error_count ≡ add64 s.error_count (failures e)
  unfolding observe
  failures-observe e s = ground arith

  abbrev pub event_measure : Measure q
  event_measure = record {
    of_state = λ s. s.count;
    of_window = λ w. w.count;
    of_event = λ e. 1;
    emits = count-emitted;
    caches = λ s x. refl;
    observes = count-observe;
    starts = λ s. refl;
  }

  abbrev pub error_measure : Measure q
  error_measure = record {
    of_state = λ s. s.error_count;
    of_window = λ w. w.error_count;
    of_event = failures;
    emits = error_count-emitted;
    caches = λ s x. refl;
    observes = failures-observe;
    starts = λ s. refl;
  }

  abbrev pub bytes_measure : Measure q
  bytes_measure = record {
    of_state = λ s. s.bytes;
    of_window = λ w. w.bytes;
    of_event = λ e. e.bytes;
    emits = bytes-emitted;
    caches = λ s x. refl;
    observes = bytes-observe;
    starts = λ s. refl;
  }

  module _ (m : Measure q) where
    open m use {of_state, of_window, of_event, emits, caches, observes, starts}

    abbrev pub held : Aggregator Sketch → ℕ
    held a = add64 (total of_state a.windows) (total of_window a.pending)

    move-held :
        (k : WindowKey) (a : Aggregator Sketch) (s : WindowState Sketch) (p95 p99 largest : ℕ)
        → find k a.windows ≡ some s
        → Ready q a
        → held (move q k a (emitted q k a s p95 p99 largest)) ≡ held a
    unfolding move
    move-held k a s p95 p99 largest e (v, room) =
        let id = Entries-find HasId k s a.windows e v.ids in
        omega (
          arith,
          total-remove of_state k s a.windows v.windows_unique e,
          total-put_new of_window _ _ a.pending
              (emitted-fresh q k a s p95 p99 largest v id (one_left q k a s e room)),
          emits k a s p95 p99 largest,
          total-lt of_state (remove k a.windows),
          total-lt of_window a.pending,
        )

    cached-held :
        (k : WindowKey) (a : Aggregator Sketch) (s : WindowState Sketch) (sketch : Sketch)
        → find k a.windows ≡ some s
        → held (cached q k a s sketch) ≡ held a
    unfolding cached
    cached-held k a s sketch e = omega (
      arith,
      total-put_old of_state k (record s { sketch = sketch }) s a.windows e,
      caches s sketch,
      total-lt of_state a.windows,
      total-lt of_state (put k (record s { sketch = sketch }) a.windows),
    )

    close_one-held :
        (k : WindowKey) (a : Aggregator Sketch) → Ready q a → held (close_one q k a).0 ≡ held a
    close_one-held k a r =
        close_one_cases q (λ p. held p.0 ≡ held a) k a (λ _. refl)
          (λ s sketch x e. cached-held k a s sketch e)
          (λ s p95 p99 largest e. move-held k a s p95 p99 largest e r)

    pub close_all-held :
        (ks : List WindowKey) (out : List AggregateWindow) (a : Aggregator Sketch)
        → Ready q a
        → held (close_all q ks out a).0 ≡ held a
    unfolding close_all
    close_all-held [] out a r = refl
    close_all-held (k ∷ ks) out a r =
        let one = close_one-held k a r in
        elim (Result-cases (close_one q k a).1) [
          | inl (x, e) ↦ rw (e, close_all) one
          | inr (w, e) ↦
              rw (e, close_all)
                (close_all-held ks (out ++ w ∷ []) (close_one q k a).0 (close_one-Ready q k a r)
                  ∙ one)
        ]

    pub store-held :
        (e : Event) (a : Aggregator Sketch) (k : WindowKey) (s : WindowState Sketch)
        → (find k a.windows ≡ some s) ⊎ ((find k a.windows ≡ none) × (of_state s ≡ 0))
        → held (store q k e a s) ≡ add64 (held a) (of_event e)
    unfolding store
    store-held e a k s (inl h) = omega (
      arith,
      total-put_old of_state k (observe q e s) s a.windows h,
      observes e s,
      total-lt of_state a.windows,
      total-lt of_state (put k (observe q e s) a.windows),
    )
    store-held e a k s (inr (h, z)) =
        omega (arith, total-put_new of_state k (observe q e s) a.windows h, observes e s)
