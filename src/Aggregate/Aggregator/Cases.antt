-- ===== src/Aggregate/Aggregator/Cases.antt =====
-- How one event is taken in and how one window is closed, as case rules.
use mcp_ironclaw.Prelude.{
  ℕ, ◌≡◌, true, false, inl, inr, none, some, Option, Option-cases, Bool-cases,
}
use mcp_ironclaw.Go.Int64.{add64}
use mcp_ironclaw.Go.Map.{find}
use mcp_ironclaw.Domain.Errors.{Error, Result, ok, err, Result-cases, too_many_keys, panic}
use mcp_ironclaw.Domain.Event.{Event}
use mcp_ironclaw.Domain.Key.{AggregateWindow}
use mcp_ironclaw.Aggregate.WindowKey.{WindowKey, window_key_eq}
use mcp_ironclaw.Aggregate.Aggregator.{
  QuantileSketch, WindowState, Aggregator, emitted, move, cached, close_with, close_state,
  close_one, key_of, store, at_ceiling, open_window, ingest_locked,
}

module _ (q : QuantileSketch) where
  open q use {Sketch}

  module _ {ℓ} (P : Aggregator Sketch × Result AggregateWindow → Type ℓ) (k : WindowKey)
      (a : Aggregator Sketch) where
    close_state_cases :
        (s : WindowState Sketch)
        → ((sketch : Sketch) (x : Error) → P (cached q k a s sketch, err x))
        → ((p95 p99 largest : ℕ)
            → let w = emitted q k a s p95 p99 largest in P (move q k a w, ok w))
        → P (close_state q k a s)
    unfolding close_state close_with
    close_state_cases s failed closed =
        let (s1, r95) = q.quantile q.q95 s.sketch in
        let (s2, r99) = q.quantile q.q99 s1 in
        elim (Result-cases r95) [
          | inl (x, e) ↦ rw (e, close_state) (failed s1 x)
          | inr (p95, e) ↦ elim (Result-cases r99) [
            | inl (x, e') ↦ rw (e, e', close_state) (failed s2 x)
            | inr (p99, e') ↦ rw (e, e', close_state) (closed p95 p99 (q.max s2))
          ]
        ]

    -- The three ways in which a round of `collect` ends.
    pub close_one_cases :
        (find k a.windows ≡ none → P (a, err panic))
        → ((s : WindowState Sketch) (sketch : Sketch) (x : Error)
            → find k a.windows ≡ some s
            → P (cached q k a s sketch, err x))
        → ((s : WindowState Sketch) (p95 p99 largest : ℕ)
            → find k a.windows ≡ some s
            → let w = emitted q k a s p95 p99 largest in P (move q k a w, ok w))
        → P (close_one q k a)
    unfolding close_one
    close_one_cases missing failed closed = elim (Option-cases (find k a.windows)) [
      | inl e ↦ rw (e, close_one) (missing e)
      | inr (s, e) ↦
          rw (e, close_one)
            (close_state_cases s (λ sketch x. failed s sketch x e)
              (λ p95 p99 largest. closed s p95 p99 largest e))
    ]

  abbrev pub empty_state : Sketch → WindowState Sketch
  empty_state s = record { count = 0; error_count = 0; bytes = 0; sketch = s }

  module _ {ℓ} (P : Aggregator Sketch × Option Error → Type ℓ) (e : Event)
      (a : Aggregator Sketch) where
    open_window_cases :
        (k : WindowKey)
        → ((x : Error) → q.new_sketch ≡ err x → P (a, some x))
        → ((s : Sketch) → P (store q k e a (empty_state s), none))
        → P (open_window q k e a)
    unfolding open_window
    open_window_cases k failed fresh = elim (Result-cases q.new_sketch) [
      | inl (x, h) ↦ rw (h, open_window) (failed x h)
      | inr (s, h) ↦ rw (h, open_window) (fresh s)
    ]

    -- The four ways in which `ingestLocked` ends.
    pub ingest_locked_cases :
        ((s : WindowState Sketch)
          → find (key_of a.config e) a.windows ≡ some s
          → P (store q (key_of a.config e) e a s, none))
        → (at_ceiling q a ≡ true → P (record a { shed = add64 a.shed 1 }, some too_many_keys))
        → ((x : Error) → q.new_sketch ≡ err x → P (a, some x))
        → ((s : Sketch)
            → find (key_of a.config e) a.windows ≡ none
            → at_ceiling q a ≡ false
            → P (store q (key_of a.config e) e a (empty_state s), none))
        → P (ingest_locked q e a)
    unfolding ingest_locked
    ingest_locked_cases present shed failed fresh =
        elim (Option-cases (find (key_of a.config e) a.windows)) [
          | inr (s, h) ↦ rw (h, ingest_locked) (present s h)
          | inl absent ↦ elim (Bool-cases (at_ceiling q a)) [
            | inl full ↦ rw (absent, full, ingest_locked) (shed full)
            | inr room ↦
                rw (absent, room, ingest_locked)
                  (open_window_cases (key_of a.config e) failed (λ s. fresh s absent room))
          ]
        ]
