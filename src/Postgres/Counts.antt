-- ===== src/Postgres/Counts.antt =====
-- internal/postgresstore/store.go: what the counts of a device are after deliveries some of which fail.
use mcp_ironclaw.Prelude.{
  ℕ, ap, ◌≡◌, ◌≢◌, ◌⊎◌, inl, inr, refl, sym, ◌∙◌, Bool, true, false, ◌&&◌, Option, none, some, List,
  [], ◌∷◌, arith, All, Option-cases, Bool-cases, select,
}
use mcp_ironclaw.Go.Text.{Text, text_eq, text_eq→eq, Lacks}
use mcp_ironclaw.Go.Map.{IsUnique, find, string_eq}
use mcp_ironclaw.Domain.Errors.{Result-cases}
use mcp_ironclaw.Domain.Key.{AggregateWindow, identity}
use mcp_ironclaw.Store.Memory.{device_key}
use mcp_ironclaw.Store.Memory.Devices.{key_of_window}
use mcp_ironclaw.Store.Memory.Ledger.{first_delivered}
use mcp_ironclaw.Postgres.{Database, RunsOn, Store, apply_window}
use mcp_ironclaw.Postgres.Statements.{Table, IsStorable, insert_window}
use mcp_ironclaw.Postgres.Deliveries.{
  IsFit, IsCanonical, conflicts-canonical, find-insert_window, insert_window-IsUnique,
  of_device-text_eq, rows_by_identity,
}

module _ {W : Type 0} (db : Database W) where
  -- Deliveries one after the other, whatever each returns.
  unfoldable pub apply_all : List AggregateWindow → Store W → Store W
  apply_all [] s = s
  apply_all (w ∷ ws) s = apply_all ws (apply_window db w s).0

  -- The windows of those deliveries that have returned no error.
  unfoldable pub succeeded : List AggregateWindow → Store W → List AggregateWindow
  succeeded [] s = []
  succeeded (w ∷ ws) s =
      let rest = succeeded ws (apply_window db w s).0 in
      elim (apply_window db w s).1 [ some _ ↦ rest | none ↦ w ∷ rest ]

  -- Every window of the device has been taken without an error on one of its deliveries.
  abbrev pub IsSettled : Text → Text → List AggregateWindow → Store W → Type 0
  IsSettled user device ws s =
      let key = device_key user device in
      (i : Text) → first_delivered key i ws ≢ none → first_delivered key i (succeeded ws s) ≢ none

  module _ (table : W → Table) (runs : RunsOn db table) where
    -- Whatever `ApplyWindow` returns, the insertion is in the table or the table is as it was; when it
    -- returns no error, the insertion is.
    pub record IsApplied (w : AggregateWindow) (s : Store W) : Type 0 where
      pub rows :
          (table (apply_window db w s).0.world ≡ table s.world)
          ⊎ (table (apply_window db w s).0.world ≡ (insert_window w (table s.world)).0)
      pub done :
          (apply_window db w s).1 ≡ none
          → table (apply_window db w s).0.world ≡ (insert_window w (table s.world)).0

    pub apply_window-IsApplied : (w : AggregateWindow) (s : Store W) → IsStorable w → IsApplied w s
    unfolding apply_window
    apply_window-IsApplied w s h = elim (Result-cases (db.insert w s.world).1) [
      | inl (e, f) ↦
          let p = runs.insert_failed w s.world e h f in
          record { rows = rw (f, apply_window) p; done = λ q. ground arith }
      | inr (n, f) ↦
          let p = ap (λ (y : Table × ℕ). y.0) (runs.inserted w s.world n h f) in
          record { rows = rw (f, apply_window) (inr p); done = λ q. rw (f, apply_window) p }
    ]

    module _ (window_of : Text → AggregateWindow) (user device : Text) where
      -- The row of the device under an identity.
      abbrev pub entry : Text → W → Option AggregateWindow
      entry i x = find i (rows_by_identity user device (table x))

      pub record IsSound (x : W) : Type 0 where
        pub canonical : All (IsCanonical window_of) (table x)
        pub unique : IsUnique (rows_by_identity user device (table x))

      step-IsSound :
          (w : AggregateWindow) (s : Store W)
          → IsFit window_of w
          → IsSound s.world
          → IsSound (apply_window db w s).0.world
      step-IsSound w s (c, h, _) v = elim (apply_window-IsApplied w s h).rows [
        | inl e ↦ record { canonical = rw e v.canonical; unique = rw e v.unique }
        | inr e ↦ record {
          canonical = rw e (conflicts-canonical window_of w (table s.world) c v.canonical);
          unique = rw e (
              insert_window-IsUnique window_of user device w (table s.world) c v.canonical
                v.unique);
        }
      ]

      abbrev matches : AggregateWindow → Text → Bool
      matches w i = text_eq (key_of_window w) (device_key user device) && text_eq (identity w) i

      -- The row under an identity after one delivery.
      record IsStep (w : AggregateWindow) (s : Store W) (i : Text) : Type 0 where
        other : matches w i ≡ false → entry i (apply_window db w s).0.world ≡ entry i s.world
        kept :
            entry i s.world ≡ some (window_of i)
            → entry i (apply_window db w s).0.world ≡ some (window_of i)
        taken :
            matches w i ≡ true
            → (apply_window db w s).1 ≡ none
            → entry i (apply_window db w s).0.world ≡ some (window_of i)

      window_of-matches :
          (w : AggregateWindow) (i : Text)
          → IsCanonical window_of w
          → matches w i ≡ true
          → w ≡ window_of i
      window_of-matches w i c m = sym c ∙ ap window_of (text_eq→eq (identity w) i (ground arith))

      entry-IsStep :
          (w : AggregateWindow) (s : Store W) (i : Text)
          → Lacks b'}' user
          → IsFit window_of w
          → IsSound s.world
          → IsStep w s i
      entry-IsStep w s i l (c, h, lw) v =
          let p = apply_window-IsApplied w s h in
          let put = find-insert_window window_of user device w (table s.world) i c v.canonical in
          let key = of_device-text_eq user device w l lw in
          let same = window_of-matches w i c in
          record {
            other =
                λ m. elim p.rows [ inl e ↦ rw e refl | inr e ↦ rw e (ground (arith, put, key)) ];
            kept =
                λ k. elim p.rows [ inl e ↦ rw e k | inr e ↦ rw e (ground (arith, put, key, same)) ];
            taken = λ m done. rw (p.done done) (ground (arith, put, key, same));
          }

      pub apply_all-IsSound :
          (ws : List AggregateWindow) (s : Store W)
          → All (IsFit window_of) ws
          → IsSound s.world
          → IsSound (apply_all ws s).world
      unfolding apply_all
      apply_all-IsSound [] s h v = v
      apply_all-IsSound (w ∷ ws) s h v =
          apply_all-IsSound ws (apply_window db w s).0 h.1 (step-IsSound w s h.0 v)

      -- The row under an identity after all deliveries.
      record IsRun (ws : List AggregateWindow) (s : Store W) (i : Text) : Type 0 where
        other :
            first_delivered (device_key user device) i ws ≡ none
            → entry i (apply_all ws s).world ≡ entry i s.world
        kept :
            entry i s.world ≡ some (window_of i)
            → entry i (apply_all ws s).world ≡ some (window_of i)
        taken :
            first_delivered (device_key user device) i (succeeded ws s) ≢ none
            → entry i (apply_all ws s).world ≡ some (window_of i)

      entry-IsRun :
          (ws : List AggregateWindow) (s : Store W) (i : Text)
          → Lacks b'}' user
          → All (IsFit window_of) ws
          → IsSound s.world
          → IsRun ws s i
      unfolding apply_all succeeded first_delivered
      entry-IsRun [] s i l h v = record {
        other = λ n. refl;
        kept = λ k. k;
        taken = λ n. absurd (n refl);
      }
      entry-IsRun (w ∷ ws) s i l h v =
          let s' = (apply_window db w s).0 in
          let step = entry-IsStep w s i l h.0 v in
          let rest = entry-IsRun ws s' i l h.1 (step-IsSound w s h.0 v) in
          record {
            other = λ n. ground (arith, rest.other, step.other);
            kept = λ k. rest.kept (step.kept k);
            taken = λ n. elim (Option-cases (apply_window db w s).1) [
              | inr (e, f) ↦ rest.taken (λ q. n (rw (f, succeeded) q))
              | inl f ↦ elim (Bool-cases (matches w i)) [
                | inl m ↦ rest.kept (step.taken m f)
                | inr m ↦ rest.taken (λ q. n (ground arith))
              ]
            ];
          }

      first_delivered-canonical :
          (ws : List AggregateWindow) (i : Text) (v : AggregateWindow)
          → All (IsFit window_of) ws
          → first_delivered (device_key user device) i ws ≡ some v
          → v ≡ window_of i
      unfolding first_delivered
      first_delivered-canonical [] i v h e = cc
      first_delivered-canonical (w ∷ ws) i v h e = elim (Bool-cases (matches w i)) [
        | inl m ↦ ground (arith, window_of-matches w i h.0.0 m)
        | inr m ↦ first_delivered-canonical ws i v h.1 (ground arith)
      ]

      pub entry-settled :
          (ws : List AggregateWindow) (s : Store W) (i : Text)
          → Lacks b'}' user
          → All (IsFit window_of) ws
          → table s.world ≡ []
          → IsSettled user device ws s
          → entry i (apply_all ws s).world ≡ first_delivered (device_key user device) i ws
      unfolding find select IsUnique
      entry-settled ws s i l h empty settled =
          let start : IsSound s.world = record { canonical = rw empty tt; unique = rw empty tt } in
          let run = entry-IsRun ws s i l h start in
          elim (Option-cases (first_delivered (device_key user device) i ws)) [
            | inl n ↦ run.other n ∙ ap (λ y. find i (rows_by_identity user device y)) empty ∙ sym n
            | inr (w, f) ↦
                run.taken (settled i (λ q. cc))
                ∙ ap some (sym (first_delivered-canonical ws i w h f))
                ∙ sym f
          ]
