-- ===== src/Aggregate/Aggregator/Preservation.antt =====
-- Every call keeps the invariant of the aggregator.
use mcp_ironclaw.Prelude.{ℕ, ◌+◌, ◌<◌, ◌≡◌, inl, inr, some, arith, Option-cases, List, [], ◌∷◌}
use mcp_ironclaw.Go.Int64.{modulus}
use mcp_ironclaw.Go.Map.{find, string_eq, put-IsUnique, length-put_old, length-remove_old}
use mcp_ironclaw.Go.Map.Entries.{Entries-put, Entries-find}
use mcp_ironclaw.Domain.Event.{Event, Batch}
use mcp_ironclaw.Aggregate.WindowKey.{WindowKey, window_key_eq}
use mcp_ironclaw.Aggregate.Aggregator.{
  QuantileSketch, WindowState, Aggregator, Config, store, ingest_locked, validate_all, ingest_all,
  ingest_batch, emitted, move, cached, close_one, window_id, key_of,
}
use mcp_ironclaw.Aggregate.Aggregator.Cases.{close_one_cases, ingest_locked_cases, empty_state}
use mcp_ironclaw.Aggregate.Aggregator.Invariant.{HasId, HasRoom, Inv, move-Inv, cached-Inv}

key_of-lt : (c : Config) (e : Event) → (key_of c e).window_id < modulus
unfolding key_of window_id
key_of-lt c e = ground arith

module _ (q : QuantileSketch) where
  open q use {Sketch}

  cached-HasRoom :
      (k : WindowKey) (a : Aggregator Sketch) (s : WindowState Sketch) (sketch : Sketch)
      → find k a.windows ≡ some s
      → HasRoom a
      → HasRoom (cached q k a s sketch)
  unfolding cached
  cached-HasRoom k a s sketch e room =
      omega (arith, length-put_old k (record s { sketch = sketch }) s a.windows e)

  move-HasRoom :
      (k : WindowKey) (a : Aggregator Sketch) (s : WindowState Sketch) (p95 p99 largest : ℕ)
      → find k a.windows ≡ some s
      → HasRoom a
      → HasRoom (move q k a (emitted q k a s p95 p99 largest))
  unfolding move emitted
  move-HasRoom k a s p95 p99 largest e room = omega (arith, length-remove_old k s a.windows e)

  pub one_left :
      (k : WindowKey) (a : Aggregator Sketch) (s : WindowState Sketch)
      → find k a.windows ≡ some s
      → HasRoom a
      → a.sequence + 1 < modulus
  one_left k a s e room = omega (arith, length-remove_old k s a.windows e)

  -- The invariant, and the room for the windows that stay open.
  abbrev pub Ready : Aggregator Sketch → Type 0
  Ready a = Inv a × HasRoom a

  pub close_one-Ready :
      (k : WindowKey) (a : Aggregator Sketch) → Ready a → Ready (close_one q k a).0
  close_one-Ready k a (v, room) =
      close_one_cases q (λ p. Ready p.0) k a (λ e. (v, room))
        (λ s sketch x e. (cached-Inv q k a s sketch e v, cached-HasRoom k a s sketch e room))
        (λ s p95 p99 largest e. (
          move-Inv q k a s p95 p99 largest v (Entries-find HasId k s a.windows e v.ids)
              (one_left k a s e room),
          move-HasRoom k a s p95 p99 largest e room,
        ))

  store-Inv :
      (k : WindowKey) (e : Event) (a : Aggregator Sketch) (s : WindowState Sketch)
      → k.window_id < modulus
      → Inv a
      → Inv (store q k e a s)
  unfolding store
  store-Inv k e a s id v = record {
    windows_unique = put-IsUnique k _ a.windows v.windows_unique;
    pending_unique = v.pending_unique;
    ids = Entries-put HasId k _ a.windows id v.ids;
    named = v.named;
  }

  ingest_locked-Inv : (e : Event) (a : Aggregator Sketch) → Inv a → Inv (ingest_locked q e a).0
  ingest_locked-Inv e a v =
      ingest_locked_cases q (λ p. Inv p.0) e a (λ s _. keep s)
        (λ _. record {
          windows_unique = v.windows_unique;
          pending_unique = v.pending_unique;
          ids = v.ids;
          named = v.named;
        })
        (λ x _. v) (λ s _ _. keep (empty_state q s))
    where
      keep : (s : WindowState Sketch) → Inv (store q (key_of a.config e) e a s)
      keep s = store-Inv (key_of a.config e) e a s (key_of-lt a.config e) v

  pub ingest_all-Inv : (es : List Event) (a : Aggregator Sketch) → Inv a → Inv (ingest_all q es a).0
  unfolding ingest_all
  ingest_all-Inv [] a v = v
  ingest_all-Inv (e ∷ es) a v = ground (
    arith,
    ingest_locked-Inv e a v,
    ingest_all-Inv es (ingest_locked q e a).0 (ingest_locked-Inv e a v),
  )

  -- So does a batch, whatever is in it.
  pub ingest_batch-Inv : (b : Batch) (a : Aggregator Sketch) → Inv a → Inv (ingest_batch q b a).0
  unfolding ingest_batch
  ingest_batch-Inv b a v = elim (Option-cases (validate_all b.events)) [
    | inl e ↦ rw (e, ingest_batch) (ingest_all-Inv b.events a v)
    | inr (x, e) ↦ rw (e, ingest_batch) v
  ]
