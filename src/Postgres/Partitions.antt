-- ===== src/Postgres/Partitions.antt =====
-- internal/postgresstore/store.go: the daily partitions of the table: creating them, and moving rows out of
-- the default partition where they stand in the way. A statement is what its SQL text says; a transaction
-- is a component of its own, on a world of its own until it is committed.
use mcp_ironclaw.Prelude.{
  ℕ, zero, suc, ◌+◌, ◌-◌, ◌*◌, ◌%◌, ◌≡◌, ◌⊎◌, Bool, true, false, not, ◌&&◌, ◌||◌, Option, none,
  some, List, [], ◌∷◌, ◌++◌, ltb, leb, select, if◌then◌else◌,
}
use mcp_ironclaw.Go.Text.{Text, codes, text_eq, text_lt}
use mcp_ironclaw.Domain.Errors.{Error, Result, ok, err}
use mcp_ironclaw.Domain.Key.{AggregateWindow}
use mcp_ironclaw.Postgres.{Rows, scan_devices}
use mcp_ironclaw.Postgres.Statements.{Table, insert_window}

-- The rows of the default partition, those of the daily ones, and whether the default is attached.
pub record Tables : Type 0 where
  pub attached : Bool
  pub default_rows : Table
  pub daily_rows : Table

-- The rows that a query of `aggregate_windows` sees.
abbrev pub visible : Tables → Table
visible t = (if t.attached then t.default_rows else []) ++ t.daily_rows

-- WHERE window_start >= $1 AND window_start < $2
abbrev pub in_range : ℕ → ℕ → AggregateWindow → Bool
in_range start end w = leb start w.window_start && ltb w.window_start end

-- INSERT INTO … SELECT * … ON CONFLICT DO NOTHING
unfoldable pub insert_all : Table → Table → Table
insert_all [] rows = rows
insert_all (w ∷ ws) rows = (insert_window w (insert_all ws rows)).0

-- The statements of `adoptFromDefaultPartition`, for a day from its start to its end.
pub data Statement : Type 0 where
  detach_default create_partition move_rows clear_rows attach_default : Statement

unfoldable pub perform : ℕ → ℕ → Statement → Tables → Tables
perform start end Statement.detach_default t = record t { attached = false }
perform start end Statement.create_partition t = t
perform start end Statement.move_rows t = record t {
  daily_rows = insert_all (select (in_range start end) t.default_rows) t.daily_rows;
}
perform start end Statement.clear_rows t = record t {
  default_rows = select (λ w. not (in_range start end w)) t.default_rows;
}
perform start end Statement.attach_default t = record t { attached = true }

abbrev pub adoption : List Statement
adoption =
    Statement.detach_default ∷ Statement.create_partition ∷ Statement.move_rows
    ∷ Statement.clear_rows ∷ Statement.attach_default ∷ []

-- The statement `ensurePartition` and the transactions of the driver, for a start and an end. A deferred
-- rollback has no effect after a commit.
pub record Connection (W T : Type 0) : Type 0 where
  pub ensure : ℕ → ℕ → W → W × Option Error
  pub begin : W → W × Result T
  pub exec : ℕ → ℕ → Statement → T → T × Option Error
  pub commit : T → W → W × Option Error
  pub rollback : T → W → W
  pub is_check_violation : Error → Bool

-- The instants are UTC: 24 hours divide them into days.
abbrev pub day_length : ℕ
day_length = 24 * 3600 * 1_000_000_000

-- day.UTC().Truncate(24 * time.Hour)
abbrev pub start_of_day : ℕ → ℕ
start_of_day t = t - t % day_length

module _ {W T : Type 0} (c : Connection W T) where
  -- The statements of a transaction, up to the first that fails.
  unfoldable pub run_statements : ℕ → ℕ → List Statement → T → T × Option Error
  run_statements start end [] t = (t, none)
  run_statements start end (st ∷ rest) t =
      let (t', failure) = c.exec start end st t in
      elim failure [ some e ↦ (t', some e) | none ↦ run_statements start end rest t' ]

  unfoldable pub adopt_from_default_partition : ℕ → ℕ → W → W × Option Error
  adopt_from_default_partition start end x =
      let (x', begun) = c.begin x in
      elim begun [
        | err e ↦ (x', some e)
        | ok t ↦
            let (t', failure) = run_statements start end adoption t in
            elim failure [ some e ↦ (c.rollback t' x', some e) | none ↦ c.commit t' x' ]
      ]

  unfoldable pub ensure_partition : ℕ → W → W × Option Error
  ensure_partition day x =
      let start = start_of_day day in
      let (x', failure) = c.ensure start (start + day_length) x in
      elim failure [
        | none ↦ (x', none)
        | some e ↦
            if c.is_check_violation e
            then adopt_from_default_partition start (start + day_length) x'
            else (x', some e)
      ]

  -- The loop of `EnsurePartitions`, from an offset, with the days that are left.
  unfoldable pub ensure_from : ℕ → ℕ → ℕ → W → W × Option Error
  ensure_from start offset zero x = (x, none)
  ensure_from start offset (suc days) x =
      let (x', failure) = ensure_partition (start + offset * day_length) x in
      elim failure [ some e ↦ (x', some e) | none ↦ ensure_from start (suc offset) days x' ]

  abbrev pub ensure_partitions : ℕ → ℕ → W → W × Option Error
  ensure_partitions start days x = ensure_from start 0 days x

-- What the store relies on, for the tables that a world and a transaction show: a statement that
-- succeeds has done what it says; a transaction starts from the tables as they are, and they change only
-- if it is committed, though a commit that reports an error may have been made.
pub record IsTransactional {W T : Type 0} (c : Connection W T) (tables : W → Tables)
    (inside : T → Tables) : Type 0 where
  pub ensured : (start end : ℕ) (x : W) → tables (c.ensure start end x).0 ≡ tables x
  pub begun : (x : W) → tables (c.begin x).0 ≡ tables x
  pub isolated : (x : W) (t : T) → (c.begin x).1 ≡ ok t → inside t ≡ tables x
  pub executed :
      (start end : ℕ) (st : Statement) (t : T)
      → (c.exec start end st t).1 ≡ none
      → inside (c.exec start end st t).0 ≡ perform start end st (inside t)
  pub committed : (t : T) (x : W) → (c.commit t x).1 ≡ none → tables (c.commit t x).0 ≡ inside t
  pub commit_failed :
      (t : T) (x : W) (e : Error)
      → (c.commit t x).1 ≡ some e
      → (tables (c.commit t x).0 ≡ tables x) ⊎ (tables (c.commit t x).0 ≡ inside t)
  pub rolled_back : (t : T) (x : W) → tables (c.rollback t x) ≡ tables x

abbrev default_partition : Text
default_partition = codes "aggregate_windows_default"

-- The loop of `DropPartitionsBefore` over the names, with how many have been dropped.
unfoldable pub drop_each :
    {W : Type 0} → (Text → W → W × Option Error) → Text → List Text → ℕ → W → W × ℕ × Option Error
drop_each drop boundary [] dropped x = (x, dropped, none)
drop_each drop boundary (name ∷ names) dropped x =
    elim (text_eq name default_partition || not (text_lt name boundary)) [
      | true ↦ drop_each drop boundary names dropped x
      | false ↦
          let (x', failure) = drop name x in
          elim failure [
            | some e ↦ (x', dropped, some e)
            | none ↦ drop_each drop boundary names (suc dropped) x'
          ]
    ]

-- `DropPartitionsBefore`, for the query of the partitions, the statement that drops one, and the name of
-- the cutoff's partition.
unfoldable pub drop_partitions_before :
    {W : Type 0}
    → (W → Result Rows)
    → (Text → W → W × Option Error)
    → Text
    → W
    → W × ℕ × Option Error
drop_partitions_before query drop boundary x = elim (query x) [
  | err e ↦ (x, 0, some e)
  | ok rows ↦
      let (names, failure) = scan_devices rows.scanned [] rows.failure in
      elim failure [ some e ↦ (x, 0, some e) | none ↦ drop_each drop boundary names.devices 0 x ]
]
