-- ===== src/Aggregate/Aggregator/Intake.antt =====
-- What `IngestBatch` makes of a batch: all of it or nothing, and every event counted or shed.
use mcp_ironclaw.Prelude.{
  ◌+◌, ◌≡◌, refl, ◌≢◌, ◌↔◌, ◌∙◌, ◌⊎◌, inl, inr, none, some, Option, arith, length, Option-cases,
  List, [], ◌∷◌, map, All,
}
use mcp_ironclaw.Go.Int64.{add64, sum64}
use mcp_ironclaw.Go.Map.{string_eq}
use mcp_ironclaw.Domain.Errors.{Error, ok, is_too_many_keys, too_many_keys}
use mcp_ironclaw.Domain.Event.{Event, Batch}
use mcp_ironclaw.Domain.Event.Validity.{IsValid, validate_iff}
use mcp_ironclaw.Aggregate.WindowKey.{WindowKey, window_key_eq}
use mcp_ironclaw.Aggregate.Aggregator.{
  ingest, QuantileSketch, WindowState, Aggregator, store, at_ceiling, ingest_locked, validate_all,
  ingest_all, ingest_batch, key_of,
}
use mcp_ironclaw.Aggregate.Aggregator.Cases.{ingest_locked_cases, empty_state}
use mcp_ironclaw.Aggregate.Aggregator.Conservation.{held_events, held_errors, held_bytes}
use mcp_ironclaw.Aggregate.Aggregator.Measure.{
  Measure, event_measure, error_measure, bytes_measure, failures, held, store-held,
}

validate_all_iff : (es : List Event) → (validate_all es ≡ none) ↔ All IsValid es
unfolding validate_all
validate_all_iff [] = ground arith
validate_all_iff (e ∷ es) = ground (arith, validate_iff e, validate_all_iff es)

module _ (q : QuantileSketch) where
  open q use {Sketch}

  -- A batch that holds an invalid event is refused and leaves the aggregator as it was.
  pub ingest_batch_refuses :
      (b : Batch) (a : Aggregator Sketch)
      → ¬ All IsValid b.events
      → ((ingest_batch q b a).0 ≡ a) × ((ingest_batch q b a).1 ≢ none)
  unfolding ingest_batch
  ingest_batch_refuses b a bad = elim (Option-cases (validate_all b.events)) [
    | inl e ↦ absurd (bad ((validate_all_iff b.events).0 e))
    | inr (x, e) ↦ rw (e, ingest_batch) (refl, λ h. cc)
  ]

  store-shed :
      (k : WindowKey) (e : Event) (a : Aggregator Sketch) (s : WindowState Sketch)
      → (store q k e a s).shed ≡ a.shed
  unfolding store
  store-shed k e a s = refl

  store-config :
      (k : WindowKey) (e : Event) (a : Aggregator Sketch) (s : WindowState Sketch)
      → (store q k e a s).config ≡ a.config
  unfolding store
  store-config k e a s = refl

  module _ (fresh : Sketch) (factory : q.new_sketch ≡ ok fresh) where
    -- An event is either counted, or shed and reported as such.
    abbrev Counted : Event → Aggregator Sketch → Aggregator Sketch × Option Error → Type 0
    Counted e a (b, r) =
        ((r ≡ none) × (held_events q b ≡ add64 (held_events q a) 1) × (b.shed ≡ a.shed))
        ⊎ ((r ≡ some too_many_keys)
            × (held_events q b ≡ held_events q a)
            × (b.shed ≡ add64 a.shed 1))

    ingest_locked-Counted : (e : Event) (a : Aggregator Sketch) → Counted e a (ingest_locked q e a)
    ingest_locked-Counted e a =
        let k = key_of a.config e in
        ingest_locked_cases q (Counted e a) e a
          (λ s h. inl (refl, store-held q (event_measure q) e a k s (inl h), store-shed k e a s))
          (λ full. inr (refl, refl, refl)) (λ x h. cc)
          (λ s h _. inl (
            refl,
            store-held q (event_measure q) e a k (empty_state q s) (inr (h, refl)),
            store-shed k e a (empty_state q s),
          ))

    ingest_all-counts :
        (es : List Event) (a : Aggregator Sketch)
        → let (b, r) = ingest_all q es a in
          (r ≡ none)
          × (add64 (held_events q b) b.shed ≡ add64 (held_events q a) (a.shed + length es))
    unfolding ingest_all is_too_many_keys
    ingest_all-counts [] a = (refl, omega arith)
    ingest_all-counts (e ∷ es) a =
        let rest = ingest_all-counts es (ingest_locked q e a).0 in
        elim (ingest_locked-Counted e a) [
          | inl (r, counted, same) ↦ rw (r, ingest_all) (rest.0, omega (arith, rest.1))
          | inr (r, same, shed) ↦ rw (r, ingest_all) (rest.0, omega (arith, rest.1))
        ]

    -- With a working sketch factory, a batch of valid events is accepted, and each of its events is
    -- either added to the counts or to the number of events shed.
    pub ingest_batch-accounts :
        (b : Batch) (a : Aggregator Sketch)
        → All IsValid b.events
        → let (a', r) = ingest_batch q b a in
          (r ≡ none)
          × (add64 (held_events q a') a'.shed ≡ add64 (held_events q a) (a.shed + length b.events))
    unfolding ingest_batch
    ingest_batch-accounts b a valid =
        rw ((validate_all_iff b.events).1 valid, ingest_batch) (ingest_all-counts b.events a)

    -- The same of any quantity, where the number of open windows is not limited.
    abbrev Unlimited : Aggregator Sketch → Type 0
    Unlimited a = a.config.max_open_windows ≡ 0

    ingest_locked-held :
        (m : Measure q) (e : Event) (a : Aggregator Sketch)
        → Unlimited a
        → let (b, r) = ingest_locked q e a in
          (r ≡ none)
          × (held q m b ≡ add64 (held q m a) (m.of_event e))
          × (b.shed ≡ a.shed)
          × Unlimited b
    unfolding at_ceiling
    ingest_locked-held m e a free =
        let k = key_of a.config e in
        ingest_locked_cases q
          (λ p.
            (p.1 ≡ none)
            × (held q m p.0 ≡ add64 (held q m a) (m.of_event e))
            × (p.0.shed ≡ a.shed)
            × Unlimited p.0)
          e a
          (λ s h. (
            refl,
            store-held q m e a k s (inl h),
            store-shed k e a s,
            rw (store-config k e a s) free,
          ))
          (λ full. ground arith) (λ x h. cc)
          (λ s h _. (
            refl,
            store-held q m e a k (empty_state q s) (inr (h, m.starts s)),
            store-shed k e a (empty_state q s),
            rw (store-config k e a (empty_state q s)) free,
          ))

    ingest_all-held :
        (m : Measure q) (es : List Event) (a : Aggregator Sketch)
        → Unlimited a
        → let (b, r) = ingest_all q es a in
          (r ≡ none)
          × (held q m b ≡ add64 (held q m a) (sum64 (map m.of_event es)))
          × (b.shed ≡ a.shed)
    unfolding ingest_all sum64
    ingest_all-held m [] a free = (refl, omega arith, refl)
    ingest_all-held m (e ∷ es) a free =
        let (r, counted, shed, free') = ingest_locked-held m e a free in
        let (r', counted', shed') = ingest_all-held m es (ingest_locked q e a).0 free' in
        rw (r, ingest_all) (r', omega (arith, counted, counted'), shed' ∙ shed)

    -- With a working sketch factory and no limit on open windows, a batch of valid events adds its
    -- number of events, its failed events and its bytes to what is held, and sheds nothing.
    pub ingest_batch-adds :
        (b : Batch) (a : Aggregator Sketch)
        → All IsValid b.events
        → Unlimited a
        → let c = (ingest_batch q b a).0 in
          (held_events q c ≡ add64 (held_events q a) (sum64 (map (λ e. 1) b.events)))
          × (held_errors q c ≡ add64 (held_errors q a) (sum64 (map failures b.events)))
          × (held_bytes q c ≡ add64 (held_bytes q a) (sum64 (map (λ e. e.bytes) b.events)))
          × (c.shed ≡ a.shed)
    unfolding ingest_batch
    ingest_batch-adds b a valid free =
        rw ((validate_all_iff b.events).1 valid, ingest_batch)
          (
            (ingest_all-held (event_measure q) b.events a free).1,
            (ingest_all-held (error_measure q) b.events a free).1,
            (ingest_all-held (bytes_measure q) b.events a free).1,
            (ingest_all-held (event_measure q) b.events a free).2,
          )

module _ (q : QuantileSketch) where
  -- A batch of one event leaves the aggregator as `Ingest` leaves it, whatever the event is; only the
  -- error of an event that is shed is not passed on.
  ingest_batch-ingest :
      (e : Event) (b : Batch) (a : Aggregator q.Sketch)
      → b.events ≡ e ∷ []
      → (ingest_batch q b a).0 ≡ (ingest q e a).0
  unfolding ingest ingest_batch ingest_all validate_all
  ingest_batch-ingest e b a h = rw (h, ingest_batch) (ground arith)
