-- ===== src/Aggregate/Aggregator/Ceiling.antt =====
-- The ceiling on the windows that are held, open or pending.
use mcp_ironclaw.Prelude.{
  ◌≤◌, ◌≡◌, inl, inr, Bool, true, false, none, some, arith, length, Option-cases, Bool-cases, List,
  [], ◌∷◌, ◌++◌,
}
use mcp_ironclaw.Go.Int64.{is_positive}
use mcp_ironclaw.Go.Map.{
  find, string_eq, length-put_old, length-remove_old, length-put-le, length-put_new,
  length-remove-le, remove,
}
use mcp_ironclaw.Go.Text.{Text}
use mcp_ironclaw.Go.Map.{Map}
use mcp_ironclaw.Domain.Errors.{is_too_many_keys, Result-cases}
use mcp_ironclaw.Domain.Event.{Event, Batch}
use mcp_ironclaw.Domain.Key.{AggregateWindow, identity}
use mcp_ironclaw.Aggregate.WindowKey.{WindowKey, window_key_eq}
use mcp_ironclaw.Aggregate.Aggregator.{
  QuantileSketch, WindowState, Aggregator, held_windows, observe, store, at_ceiling, ingest_locked,
  validate_all, ingest_all, ingest_batch, move, cached, close_one, close_all, collect, selected,
  retained, key_of, forget, commit,
}
use mcp_ironclaw.Aggregate.Aggregator.Cases.{close_one_cases, ingest_locked_cases, empty_state}

-- A positive ceiling bounds the windows held.
abbrev pub IsCapped : {S : Type 0} → Aggregator S → Type 0
IsCapped a =
    is_positive a.config.max_open_windows ≡ true → held_windows a ≤ a.config.max_open_windows

module _ (q : QuantileSketch) where
  open q use {Sketch}

  store_old-IsCapped :
      (k : WindowKey) (e : Event) (a : Aggregator Sketch) (s : WindowState Sketch)
      → find k a.windows ≡ some s
      → IsCapped a
      → IsCapped (store q k e a s)
  unfolding store
  store_old-IsCapped k e a s h c p =
      omega (arith, c p, length-put_old k (observe q e s) s a.windows h)

  store_new-IsCapped :
      (k : WindowKey) (e : Event) (a : Aggregator Sketch) (s : WindowState Sketch)
      → find k a.windows ≡ none
      → at_ceiling q a ≡ false
      → IsCapped (store q k e a s)
  unfolding store at_ceiling
  store_new-IsCapped k e a s h room p = ground (arith, length-put_new k (observe q e s) a.windows h)

  ingest_locked-IsCapped :
      (e : Event) (a : Aggregator Sketch) → IsCapped a → IsCapped (ingest_locked q e a).0
  ingest_locked-IsCapped e a c =
      ingest_locked_cases q (λ p. IsCapped p.0) e a
        (λ s h. store_old-IsCapped (key_of a.config e) e a s h c) (λ _. c) (λ x _. c)
        (λ s h room. store_new-IsCapped (key_of a.config e) e a (empty_state q s) h room)

  ingest_all-IsCapped :
      (es : List Event) (a : Aggregator Sketch) → IsCapped a → IsCapped (ingest_all q es a).0
  unfolding ingest_all
  ingest_all-IsCapped [] a c = c
  ingest_all-IsCapped (e ∷ es) a c =
      let one = ingest_locked-IsCapped e a c in
      let rest = ingest_all-IsCapped es (ingest_locked q e a).0 one in
      elim (Option-cases (ingest_locked q e a).1) [
        | inl h ↦ rw (h, ingest_all) rest
        | inr (x, h) ↦ elim (Bool-cases (is_too_many_keys x)) [
          | inl y ↦ rw (h, y, ingest_all) rest
          | inr n ↦ rw (h, n, ingest_all) one
        ]
      ]

  ingest_batch-IsCapped :
      (b : Batch) (a : Aggregator Sketch) → IsCapped a → IsCapped (ingest_batch q b a).0
  unfolding ingest_batch
  ingest_batch-IsCapped b a c = elim (Option-cases (validate_all b.events)) [
    | inl e ↦ rw (e, ingest_batch) (ingest_all-IsCapped b.events a c)
    | inr (x, e) ↦ rw (e, ingest_batch) c
  ]

  move-IsCapped :
      (k : WindowKey) (a : Aggregator Sketch) (s : WindowState Sketch) (w : AggregateWindow)
      → find k a.windows ≡ some s
      → IsCapped a
      → IsCapped (move q k a w)
  unfolding move
  move-IsCapped k a s w h c p =
      omega (arith, c p, length-remove_old k s a.windows h, length-put-le (identity w) w a.pending)

  cached-IsCapped :
      (k : WindowKey) (a : Aggregator Sketch) (s : WindowState Sketch) (sketch : Sketch)
      → find k a.windows ≡ some s
      → IsCapped a
      → IsCapped (cached q k a s sketch)
  unfolding cached
  cached-IsCapped k a s sketch h c p =
      omega (arith, c p, length-put_old k (record s { sketch = sketch }) s a.windows h)

  close_one-IsCapped :
      (k : WindowKey) (a : Aggregator Sketch) → IsCapped a → IsCapped (close_one q k a).0
  close_one-IsCapped k a c =
      close_one_cases q (λ p. IsCapped p.0) k a (λ _. c)
        (λ s sketch x h. cached-IsCapped k a s sketch h c)
        (λ s p95 p99 largest h. move-IsCapped k a s _ h c)

  close_all-IsCapped :
      (ks : List WindowKey) (out : List AggregateWindow) (a : Aggregator Sketch)
      → IsCapped a
      → IsCapped (close_all q ks out a).0
  unfolding close_all
  close_all-IsCapped [] out a c = c
  close_all-IsCapped (k ∷ ks) out a c =
      let one = close_one-IsCapped k a c in
      elim (Result-cases (close_one q k a).1) [
        | inl (x, e) ↦ rw (e, close_all) one
        | inr (w, e) ↦ rw (e, close_all) (close_all-IsCapped ks (out ++ w ∷ []) _ one)
      ]

  length-forget-le :
      (ws : List AggregateWindow) (m : Map Text AggregateWindow) → length (forget ws m) ≤ length m
  unfolding forget
  length-forget-le [] m = omega arith
  length-forget-le (w ∷ ws) m =
      omega (arith, length-forget-le ws (remove (identity w) m), length-remove-le (identity w) m)

  -- A batch, a collection and a commit keep the number of windows held, open and pending together,
  -- within a positive ceiling.
  pub ceiling_kept :
      (a : Aggregator Sketch)
      → IsCapped a
      → ((b : Batch) → IsCapped (ingest_batch q b a).0)
        × ((include : WindowKey → Bool) → IsCapped (collect q include a).0)
        × ((ws : List AggregateWindow) → IsCapped (commit ws a))
  unfolding collect commit
  ceiling_kept a c = (
    λ b. ingest_batch-IsCapped b a c,
    λ include. close_all-IsCapped (selected q include a) (retained q a) a c,
    λ ws p. omega (arith, c p, length-forget-le ws a.pending),
  )
