-- ===== src/Services/Emission/Retention.antt =====
-- What a round of internal/aggregator/service.go does with the windows that it has collected: each
-- is offered to the publisher once, and the ones that it refuses stay with the source.
use mathlib.Core.List.{Perm}
use mcp_ironclaw.Prelude.{
  ℕ, ◌≡◌, ap, ◌∙◌, Option, none, some, List, [], ◌∷◌, ◌++◌, arith, if◌then◌else◌, append_assoc,
  append-nil, Option-cases, inl, inr,
}
use mcp_ironclaw.Go.Text.{Text}
use mcp_ironclaw.Go.Map.{Map, find, string_eq}
use mcp_ironclaw.Go.Map.Entries.{values}
use mcp_ironclaw.Domain.Errors.{Error, ok}
use mcp_ironclaw.Domain.Key.{AggregateWindow}
use mcp_ironclaw.Aggregate.Aggregator.TwoPhase.{named_in}
use mcp_ironclaw.Services.Emission.{
  WindowSource, WindowPublisher, Service, Published, first_failure, publish_all, publish, emit_all,
  emit_closed_windows, settle,
}

-- What the service relies on in its source: what is pending, that a collection returns it, and that
-- `Commit` forgets what it names and nothing else.
pub record IsWindowSource {S : Type 0} (src : WindowSource S) : Type 1 where
  pub Ready : S → Type 0
  pub pending : S → Map Text AggregateWindow
  pub commit_forgets :
      (ws : List AggregateWindow) (s : S) (i : Text)
      → find i (pending (src.commit ws s)) ≡ (if named_in i ws then none else find i (pending s))
  pub collects_before :
      (watermark : ℕ) (s s' : S) (ws : List AggregateWindow)
      → Ready s
      → src.collect_windows_before watermark s ≡ (s', ok ws)
      → Perm ws (values (pending s'))
  pub collects_all :
      (s s' : S) (ws : List AggregateWindow)
      → Ready s
      → src.collect_all s ≡ (s', ok ws)
      → Perm ws (values (pending s'))

module _ {W : Type 0} (publish_window : WindowPublisher W) where
  -- The world after every window has been offered once, in order, and the windows that the
  -- publisher took, and the first error that it returned.
  abbrev pub offered : List AggregateWindow → W → W
  offered [] x = x
  offered (w ∷ ws) x = offered ws (publish_window w x).0

  abbrev pub accepted : List AggregateWindow → W → List AggregateWindow
  accepted [] x = []
  accepted (w ∷ ws) x =
      let later = accepted ws (publish_window w x).0 in
      elim ((publish_window w x).1) [ none ↦ w ∷ later | some e ↦ later ]

  abbrev pub first_error : List AggregateWindow → W → Option Error
  first_error [] x = none
  first_error (w ∷ ws) x =
      first_failure (publish_window w x).1 (first_error ws (publish_window w x).0)

  publish_all_lem :
      (ws : List AggregateWindow) (x : W) (done : List AggregateWindow) (failure : Option Error)
      → publish_all publish_window ws (record { world = x; published = done; failure = failure })
        ≡ record {
          world = offered ws x;
          published = done ++ accepted ws x;
          failure = first_failure failure (first_error ws x);
        }
  unfolding publish_all
  publish_all_lem [] x done failure = ground (arith, append-nil done)
  publish_all_lem (w ∷ ws) x done failure =
      let next = (publish_window w x).0 in
      let later = accepted ws next in
      elim (Option-cases (publish_window w x).1) [
        | inl e ↦ ground (
          arith,
          publish_all_lem ws next (done ++ w ∷ []) failure,
          append_assoc done (w ∷ []) later,
        )
        | inr (failed, e) ↦
            ground (arith, publish_all_lem ws next done (first_failure failure (some failed)))
      ]

module _ {S W : Type 0} (src : WindowSource S) (publish_window : WindowPublisher W) where
  settle_lem :
      (ws : List AggregateWindow) (p : Published W) (s : Service S W)
      → let (s', failure) = settle src publish_window ws p s in
        (s'.source ≡ src.commit p.published s.source) × (s'.world ≡ p.world) × (failure ≡ p.failure)
  settle_lem ws p s = elim (Option-cases p.failure) [
    | inl e ↦ (ground arith, ground arith, ground arith)
    | inr (x, e) ↦ (ground arith, ground arith, ground arith)
  ]

  -- What `publish` leaves behind.
  publish_lem :
      (ws : List AggregateWindow) (s : Service S W)
      → let (s', failure) = publish src publish_window ws s in
        (s'.source ≡ src.commit (accepted publish_window ws s.world) s.source)
        × (s'.world ≡ offered publish_window ws s.world)
        × (failure ≡ first_error publish_window ws s.world)
  unfolding publish
  publish_lem ws s =
      let start : Published W = record { world = s.world; published = []; failure = none } in
      let (x, y, z) = settle_lem ws (publish_all publish_window ws start) s in
      let p = publish_all_lem publish_window ws s.world [] none in
      (
        x ∙ ap (λ q. src.commit q.published s.source) p,
        y ∙ ap (λ q. q.world) p,
        z ∙ ap (λ q. q.failure) p,
      )

  -- How a round ends for the windows that it collected: `ws` are all that waited, each was offered
  -- to the publisher in turn, and those that it took, and no other, are forgotten.
  pub record IsSettled (v : IsWindowSource src) (ws : List AggregateWindow) (collected : S)
      (s s' : Service S W) (result : Option Error) : Type 0 where
    pub all_offered : Perm ws (values (v.pending collected))
    pub world : s'.world ≡ offered publish_window ws s.world
    pub failure : result ≡ first_error publish_window ws s.world
    pub still_pending :
        (i : Text)
        → find i (v.pending s'.source) ≡ (
            if named_in i (accepted publish_window ws s.world)
            then none
            else find i (v.pending collected))

  publish-IsSettled :
      (v : IsWindowSource src) (ws : List AggregateWindow) (collected : S) (s : Service S W)
      → Perm ws (values (v.pending collected))
      → let s0 = record s { source = collected } in
        IsSettled v ws collected s
          (publish src publish_window ws s0).0
          (publish src publish_window ws s0).1
  publish-IsSettled v ws collected s p =
      let s0 = record s { source = collected } in
      let (x, y, z) = publish_lem ws s0 in
      record {
        all_offered = p;
        world = y;
        failure = z;
        still_pending = λ i.
            ap (λ q. find i (v.pending q)) x
            ∙ v.commit_forgets (accepted publish_window ws s.world) collected i;
      }

  -- A round of `EmitClosedWindows` whose collection succeeds offers every window that waits for its
  -- publication to the publisher, each once and in order, going on after a failure; it returns the
  -- first failure, and afterwards exactly the windows that the publisher refused are pending.
  pub emit_closed_windows-IsSettled :
      (v : IsWindowSource src) (watermark : ℕ) (s : Service S W) (collected : S)
      (ws : List AggregateWindow)
      → v.Ready s.source
      → src.collect_windows_before watermark s.source ≡ (collected, ok ws)
      → IsSettled v ws collected s
          (emit_closed_windows src publish_window watermark s).0
          (emit_closed_windows src publish_window watermark s).1
  unfolding emit_closed_windows
  emit_closed_windows-IsSettled v watermark s collected ws ready e =
      rw (e, emit_closed_windows)
        (publish-IsSettled v ws collected s
          (v.collects_before watermark s.source collected ws ready e))

  -- `EmitAll`, the flush of a shutdown, when its collection succeeds, offers every window that waits for
  -- its publication to the publisher, each once and in order, going on after a failure; it returns the
  -- first failure, and afterwards exactly the windows that the publisher refused are pending.
  pub emit_all-IsSettled :
      (v : IsWindowSource src) (s : Service S W) (collected : S) (ws : List AggregateWindow)
      → v.Ready s.source
      → src.collect_all s.source ≡ (collected, ok ws)
      → IsSettled v ws collected s
          (emit_all src publish_window s).0
          (emit_all src publish_window s).1
  unfolding emit_all
  emit_all-IsSettled v s collected ws ready e =
      rw (e, emit_all)
        (publish-IsSettled v ws collected s (v.collects_all s.source collected ws ready e))
