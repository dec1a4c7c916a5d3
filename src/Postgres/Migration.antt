-- ===== src/Postgres/Migration.antt =====
-- internal/postgresstore/store.go: what the migration out of the default partition keeps.
use mcp_ironclaw.Prelude.{
  ℕ, zero, suc, ap, refl, sym, subst, ◌∙◌, ◌+◌, ◌*◌, ◌≡◌, ◌⊎◌, inl, inr, true, none, List, [], ◌∷◌,
  ◌++◌, arith, if◌then◌else◌, Option-cases, Bool-cases,
}
use mcp_ironclaw.Go.Text.{Text}
use mcp_ironclaw.Domain.Errors.{Result-cases}
use mcp_ironclaw.Domain.Key.{AggregateWindow}
use mcp_ironclaw.Postgres.Statements.{column_sum}
use mcp_ironclaw.Postgres.Partitions.{
  day_length, start_of_day, Connection, IsTransactional, Statement, Tables,
  adopt_from_default_partition, adoption, ensure_from, ensure_partition, ensure_partitions,
  in_range, perform, run_statements, visible,
}
use mcp_ironclaw.Postgres.Keys.{IsKeyed, apart-IsKeyed, insert_all-append, device_sum-apart}

-- The tables with the default partition attached, and the primary key kept.
record IsIntact (t : Tables) : Type 0 where
  attached : t.attached ≡ true
  keyed : IsKeyed (visible t)

-- One state of the tables after another: still intact, with the sums of every device.
record IsKept (t t' : Tables) : Type 0 where
  intact : IsIntact t'
  sums :
      (f : AggregateWindow → ℕ) (user device : Text)
      → column_sum f user device (visible t') ≡ column_sum f user device (visible t)

unfoldable perform_all : ℕ → ℕ → List Statement → Tables → Tables
perform_all start end [] t = t
perform_all start end (st ∷ rest) t = perform_all start end rest (perform start end st t)

adopted-IsKept :
    (start end : ℕ) (t : Tables) → IsIntact t → IsKept t (perform_all start end adoption t)
unfolding perform_all perform
adopted-IsKept start end t h =
    let p = in_range start end in
    let keyed : IsKeyed (t.default_rows ++ t.daily_rows) =
      subst (λ b. IsKeyed ((if b then t.default_rows else []) ++ t.daily_rows)) h.attached
        h.keyed in
    let moved = insert_all-append p t.default_rows t.daily_rows keyed in
    record {
      intact = record {
        attached = refl;
        keyed = rw moved (apart-IsKeyed p t.default_rows t.daily_rows keyed);
      };
      sums = λ f user device.
          rw (moved, h.attached) (device_sum-apart p f user device t.default_rows t.daily_rows);
    }

module _ {W T : Type 0} (c : Connection W T) (tables : W → Tables) (inside : T → Tables) where
  module _ (laws : IsTransactional c tables inside) where
    run_statements-all :
        (start end : ℕ) (sts : List Statement) (t : T)
        → (run_statements c start end sts t).1 ≡ none
        → inside (run_statements c start end sts t).0 ≡ perform_all start end sts (inside t)
    unfolding run_statements perform_all
    run_statements-all start end [] t e = refl
    run_statements-all start end (st ∷ rest) t e = elim (Option-cases (c.exec start end st t).1) [
      | inr (x, f) ↦ absurd (ground arith)
      | inl f ↦
          rw (f, run_statements)
            (run_statements-all start end rest (c.exec start end st t).0 (ground arith)
              ∙ ap (perform_all start end rest) (laws.executed start end st t f))
    ]

    -- Whatever fails, the migration has been made whole or has changed nothing.
    adopt-atomic :
        (start end : ℕ) (x : W)
        → let t = tables (adopt_from_default_partition c start end x).0 in
          (t ≡ tables x) ⊎ (t ≡ perform_all start end adoption (tables x))
    unfolding adopt_from_default_partition
    adopt-atomic start end x = elim (Result-cases (c.begin x).1) [
      | inl (e, f) ↦ rw (f, adopt_from_default_partition) (inl (laws.begun x))
      | inr (t, f) ↦
          let t' = (run_statements c start end adoption t).0 in
          elim (Option-cases (run_statements c start end adoption t).1) [
            | inr (e, g) ↦
                rw (f, g, adopt_from_default_partition)
                  (inl (laws.rolled_back t' (c.begin x).0 ∙ laws.begun x))
            | inl g ↦
                let done =
                  run_statements-all start end adoption t g
                  ∙ ap (perform_all start end adoption) (laws.isolated x t f) in
                rw (f, g, adopt_from_default_partition)
                  (elim (Option-cases (c.commit t' (c.begin x).0).1) [
                    | inl q ↦ inr (laws.committed t' (c.begin x).0 q ∙ done)
                    | inr (e, q) ↦ elim (laws.commit_failed t' (c.begin x).0 e q) [
                      | inl r ↦ inl (r ∙ laws.begun x)
                      | inr r ↦ inr (r ∙ done)
                    ]
                  ])
          ]
    ]

    same-IsKept : (t t' : Tables) → t' ≡ t → IsIntact t → IsKept t t'
    same-IsKept t t' e h = rw e (record { intact = h; sums = λ f user device. refl })

    adopt-IsKept :
        (start end : ℕ) (x : W)
        → IsIntact (tables x)
        → IsKept (tables x) (tables (adopt_from_default_partition c start end x).0)
    adopt-IsKept start end x h = elim (adopt-atomic start end x) [
      | inl e ↦ same-IsKept _ _ e h
      | inr e ↦ rw e (adopted-IsKept start end (tables x) h)
    ]

    ensure_partition-IsKept :
        (day : ℕ) (x : W)
        → IsIntact (tables x)
        → IsKept (tables x) (tables (ensure_partition c day x).0)
    unfolding ensure_partition
    ensure_partition-IsKept day x h =
        let start = start_of_day day in
        let (x', failure) = c.ensure start (start + day_length) x in
        let same = laws.ensured start (start + day_length) x in
        let adopted = adopt-IsKept start (start + day_length) x' (subst IsIntact (sym same) h) in
        elim (Option-cases failure) [
          | inl f ↦ rw (f, ensure_partition) (same-IsKept _ _ same h)
          | inr (e, f) ↦ elim (Bool-cases (c.is_check_violation e)) [
            | inr g ↦ rw (f, g, ensure_partition) (same-IsKept _ _ same h)
            | inl g ↦
                rw (f, g, ensure_partition)
                  (subst
                    (λ t.
                      IsKept t
                        (tables (adopt_from_default_partition c start (start + day_length) x').0))
                    same adopted)
          ]
        ]

    ensure_from-IsKept :
        (start offset days : ℕ) (x : W)
        → IsIntact (tables x)
        → IsKept (tables x) (tables (ensure_from c start offset days x).0)
    unfolding ensure_from
    ensure_from-IsKept start offset zero x h = same-IsKept _ _ refl h
    ensure_from-IsKept start offset (suc days) x h =
        let day = start + offset * day_length in
        let first = ensure_partition-IsKept day x h in
        let x' = (ensure_partition c day x).0 in
        let rest = ensure_from-IsKept start (suc offset) days x' first.intact in
        elim (Option-cases (ensure_partition c day x).1) [
          | inr (e, f) ↦ rw (f, ensure_from) first
          | inl f ↦
              rw (f, ensure_from)
                (record {
                  intact = rest.intact;
                  sums = λ g u d. rest.sums g u d ∙ first.sums g u d;
                })
        ]

    -- Making the partitions of any days keeps what the store has counted, whichever statement fails and
    -- also when a transaction is committed but reports an error: no two rows have one primary key, the
    -- default partition is attached, and the sums of each device, over any column, are as they were,
    -- although rows have moved. The table must have been so before.
    pub ensure_partitions-keeps :
        (start days : ℕ) (x : W)
        → (tables x).attached ≡ true
        → IsKeyed (visible (tables x))
        → let t = tables (ensure_partitions c start days x).0 in
          (t.attached ≡ true)
          × IsKeyed (visible t)
          × ((f : AggregateWindow → ℕ) (user device : Text)
              → column_sum f user device (visible t)
                ≡ column_sum f user device (visible (tables x)))
    ensure_partitions-keeps start days x a k =
        let p = ensure_from-IsKept start 0 days x (record { attached = a; keyed = k }) in
        (p.intact.attached, p.intact.keyed, p.sums)
