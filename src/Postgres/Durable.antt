-- ===== src/Postgres/Durable.antt =====
-- From the bus to the archive: internal/kafkabus/bus.go delivers windows to internal/persister/service.go,
-- which writes them to internal/postgresstore/store.go. What is in the table when offsets are committed.
use mcp_ironclaw.Prelude.{
  ap, ℕ, zero, suc, ◌+◌, ◌≡◌, inl, inr, refl, sym, subst, Option, none, some, List, [], ◌∷◌, ◌++◌,
  arith, All, All-mono, Option-cases,
}
use mcp_ironclaw.Domain.Errors.{Error}
use mcp_ironclaw.Domain.Key.{AggregateWindow}
use mcp_ironclaw.Services.Handlers.{Handler}
use mcp_ironclaw.Wire.Codec.{Codec}
use mcp_ironclaw.KafkaBus.{KafkaRecord}
use mcp_ironclaw.KafkaBus.Consumer.{
  Commit, Consumer, Setup, deliver_each, attempt_from, commit_handled, deliver, fetched, poll_round,
  send_to_dead_letter, tried,
}
use mcp_ironclaw.KafkaBus.Delivery.{Failures, IsSettled, no_attempt, failed_again}
use mcp_ironclaw.KafkaBus.Polling.{
  nothing, then_next, AllSettled, committed, commit_handled_lem, deliver_each-offsets,
  deliver_each_lem,
}
use mcp_ironclaw.Postgres.{Database, Store}
use mcp_ironclaw.Postgres.Statements.{Table}
use mcp_ironclaw.Postgres.Archive.{
  StoresIn, TakenBy, none_taken, next_taken, IsSafe, HasRow, IsDurable, archive, archive-HasRow,
  archive-IsDurable,
}

module _ {W : Type 0} (db : Database W) (table : W → Table) (instant : ℕ → ℕ)
    (runs : StoresIn db table instant) (codec : Codec) where
  module _ {D : Type 0} (c : Setup (Handler (Store W)) D)
      (quiet : (n : ℕ) (e : Error) (v : Handler (Store W)) → (c.on_error n e v).world ≡ v.world)
      (ctx : Handler (Store W) → Option Error) where
    on_error-HasRow :
        (n : ℕ) (e : Error) (v : Handler (Store W)) (w : AggregateWindow)
        → HasRow table instant w v
        → HasRow table instant w (c.on_error n e v)
    on_error-HasRow n e v w h = rw (quiet n e v) h

    Failures-HasRow :
        (r : KafkaRecord) (v v' : Handler (Store W)) (k : ℕ) (last : Option Error)
        → Failures c (archive db codec) ctx r v k last v'
        → (w : AggregateWindow) → HasRow table instant w v
        → HasRow table instant w v'
    Failures-HasRow r v _ _ _ (no_attempt _) w h = h
    Failures-HasRow r v _ _ _ (failed_again _ u k last e f x y) w h =
        on_error-HasRow (k + 1) e ((archive db codec) r u).0 w
          (archive-HasRow db table instant runs codec r u w (Failures-HasRow r v u k last f w h))

    still-IsSafe :
        (dead : List KafkaRecord) (r : KafkaRecord) (v v' : Handler (Store W))
        → ((w : AggregateWindow) → HasRow table instant w v → HasRow table instant w v')
        → IsSafe table instant codec dead v r
        → IsSafe table instant codec dead v' r
    still-IsSafe dead r v v' keeps (inl (w, e, h)) = inl (w, e, keeps w h)
    still-IsSafe dead r v v' keeps (inr d) = inr d

    later-IsSafe :
        (dead : List KafkaRecord) (first r : KafkaRecord) (v : Handler (Store W))
        → IsSafe table instant codec dead v r
        → IsSafe table instant codec (first ∷ dead) v r
    later-IsSafe dead first r v (inl h) = inl h
    later-IsSafe dead first r v (inr (before, after, e)) =
        inr (first ∷ before, after, ap (λ rs. first ∷ rs) e)

    module _ {K : Type 0} where
      dead_letter-world :
          (r : KafkaRecord) (last : Option Error) (s : Consumer (Handler (Store W)) D K)
          → (send_to_dead_letter c r last s).0.world ≡ s.world
      unfolding send_to_dead_letter
      dead_letter-world r last s = ground arith

      attempt_from-HasRow :
          (r : KafkaRecord) (left n : ℕ) (last : Option Error)
          (s : Consumer (Handler (Store W)) D K) (w : AggregateWindow)
          → HasRow table instant w s.world
          → HasRow table instant w (attempt_from c (archive db codec) ctx r left n last s).0.world
      unfolding attempt_from send_to_dead_letter
      attempt_from-HasRow r zero n last s w h =
          let same : (send_to_dead_letter c r last s).0.world ≡ s.world =
            dead_letter-world r last s in
          rw same h
      attempt_from-HasRow r (suc left) n last s w h =
          let kept = archive-HasRow db table instant runs codec r s.world w h in
          elim (Option-cases ((archive db codec) r s.world).1) [
            | inl g ↦ rw (g, attempt_from) kept
            | inr (e, g) ↦ elim (Option-cases (ctx ((archive db codec) r s.world).0)) [
              | inr (x, y) ↦ rw (g, attempt_from, y) kept
              | inl y ↦
                  rw (g, attempt_from, y)
                    (attempt_from-HasRow r left (n + 1) (some e)
                      (tried c n e (record s { world = ((archive db codec) r s.world).0 })) w
                      (on_error-HasRow n e ((archive db codec) r s.world).0 w kept))
            ]
          ]

      deliver-HasRow :
          (r : KafkaRecord) (s : Consumer (Handler (Store W)) D K) (w : AggregateWindow)
          → HasRow table instant w s.world
          → HasRow table instant w (deliver c (archive db codec) ctx r s).0.world
      unfolding deliver
      deliver-HasRow r s w h = attempt_from-HasRow r c.max_attempts 1 none s w h

      settled-HasRow :
          (r : KafkaRecord) (s t : Consumer (Handler (Store W)) D K) (w : AggregateWindow)
          → IsSettled c (archive db codec) ctx r s t
          → HasRow table instant w s.world
          → HasRow table instant w t.world
      settled-HasRow r s t w (_, inl (k, last, v, _, f, _, e, _)) h = rw e (
          archive-HasRow db table instant runs codec r v w
            (Failures-HasRow r s.world v k last f w h))
      settled-HasRow r s t w (_, inr (last, produce, f, _, _, _)) h =
          Failures-HasRow r s.world t.world c.max_attempts last f w h

      AllSettled-HasRow :
          (rs : List KafkaRecord) (s t : Consumer (Handler (Store W)) D K) (w : AggregateWindow)
          → AllSettled c (archive db codec) ctx rs s t
          → HasRow table instant w s.world
          → HasRow table instant w t.world
      AllSettled-HasRow _ s _ w (nothing _) h = h
      AllSettled-HasRow _ s _ w (then_next r rs _ t u p q) h =
          AllSettled-HasRow rs t u w q (settled-HasRow r s t w p h)

      -- What settling records in turn has come to.
      abbrev IsSettledSafely :
          List KafkaRecord
          → Consumer (Handler (Store W)) D K
          → Consumer (Handler (Store W)) D K
          → Type 0
      IsSettledSafely rs s t =
          (dead : List KafkaRecord) × TakenBy c s.dead_client dead t.dead_client
          × All (IsSafe table instant codec dead t.world) rs

      AllSettled-IsSafe :
          (rs : List KafkaRecord) (s t : Consumer (Handler (Store W)) D K)
          → AllSettled c (archive db codec) ctx rs s t
          → IsSettledSafely rs s t
      AllSettled-IsSafe _ s _ (nothing _) = ([], none_taken s.dead_client, tt)
      AllSettled-IsSafe _ s _ (then_next r rs _ t u (_, inl (k, last, v, _, f, g, e, d)) q) =
          let (dead, taken, safe) = AllSettled-IsSafe rs t u q in
          let (w, decoded, row) =
            subst (IsDurable table instant codec r) (sym e)
              (archive-IsDurable db table instant runs codec r v g) in
          (
            dead,
            subst (λ x. TakenBy c x dead u.dead_client) d taken,
            (inl (w, decoded, AllSettled-HasRow rs t u w q row), safe),
          )
      AllSettled-IsSafe _ s _ (then_next r rs _ t u (_, inr (last, produce, f, e, took, d)) q) =
          let (dead, taken, safe) = AllSettled-IsSafe rs t u q in
          (
            r ∷ dead,
            next_taken r dead produce last s.dead_client t.dead_client u.dead_client e took d taken,
            (
              inr ([], dead, refl),
              All-mono (IsSafe table instant codec dead u.world)
                  (IsSafe table instant codec (r ∷ dead) u.world)
                  (λ x. later-IsSafe dead r x u.world) rs safe,
            ),
          )

      module _ (commit : Commit K) where
        commit_handled-world :
            (after : Option Error) (handled : List KafkaRecord) (failure : Option Error)
            (m : Consumer (Handler (Store W)) D K)
            → (commit_handled c commit (archive db codec) after handled failure m).0.world ≡ m.world
        unfolding commit_handled
        commit_handled-world after [] failure m = refl
        commit_handled-world after (r ∷ rs) failure m = ground arith

        -- A round of `poll` of the archive's persister commits an offset only for a record that is
        -- safe: at the end of the round the table has a row of the primary key under which it keeps the
        -- record's window, or the record is one of those that the dead-letter client has taken in the round, one after
        -- the other. The records that are committed are the first ones of the round; whatever fails,
        -- the rest is left for a later delivery. The database
        -- must run the insertion as its statement says, with any rounding of the instants, and telling
        -- an error must not touch the store.
        pub committed-IsSafe :
            (after : Option Error) (rs : List KafkaRecord) (s : Consumer (Handler (Store W)) D K)
            → let s' = (poll_round c commit (archive db codec) none after ctx (fetched rs) s).0 in
              (handled : List KafkaRecord) × (rest : List KafkaRecord) × (rs ≡ handled ++ rest)
              × (s'.offsets ≡ (committed c commit (archive db codec) handled s.offsets).0)
              × ((dead : List KafkaRecord) × (x : D) × TakenBy c s.dead_client dead x
                  × All (IsSafe table instant codec dead s'.world) handled)
        unfolding poll_round
        committed-IsSafe after rs s =
            let (m, handled, failure) = deliver_each c (archive db codec) ctx rs s in
            let (rest, t, parts, settled, end) = deliver_each_lem c (archive db codec) ctx rs s in
            let kept : (w : AggregateWindow)
                → HasRow table instant w t.world
                → HasRow table instant w m.world =
              λ w h. elim end [
                | inl (_, _, e) ↦
                    subst (λ (y : Consumer (Handler (Store W)) D K). HasRow table instant w y.world)
                      (sym e) h
                | inr (r, later, e, _, _, d) ↦
                    subst
                      (λ (p : Consumer (Handler (Store W)) D K × Option Error).
                        HasRow table instant w p.0.world)
                      d (deliver-HasRow r t w h)
              ] in
            let (offsets, _) =
              commit_handled_lem c commit (archive db codec) after handled failure m in
            let world = commit_handled-world after handled failure m in
            let (dead, taken, safe) = AllSettled-IsSafe handled s t settled in
            (
              handled,
              rest,
              parts,
              subst
                  (λ k.
                    (commit_handled c commit (archive db codec) after handled failure m).0.offsets
                    ≡ (committed c commit (archive db codec) handled k).0)
                  (deliver_each-offsets c (archive db codec) ctx rs s) offsets,
              (
                dead,
                t.dead_client,
                taken,
                subst (λ v. All (IsSafe table instant codec dead v) handled) (sym world)
                    (All-mono (IsSafe table instant codec dead t.world)
                      (IsSafe table instant codec dead m.world)
                      (λ r. still-IsSafe dead r t.world m.world kept) handled safe),
              ),
            )
