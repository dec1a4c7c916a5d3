-- ===== src/Postgres/Archive.antt =====
-- internal/persister/service.go as a consumer of windows that writes to internal/postgresstore/store.go:
-- what one delivery does to the table.
use mcp_ironclaw.Prelude.{
  ap, ◌⊎◌, ◌++◌, [], ◌∷◌, Option, some, ℕ, ◌≡◌, inl, inr, true, none, List, arith, Option-cases,
}
use mcp_ironclaw.Domain.Errors.{err, Error, ok, Result-cases}
use mcp_ironclaw.Domain.Key.{AggregateWindow}
use mcp_ironclaw.Services.Handlers.{Handler, handle_window}
use mcp_ironclaw.Wire.Codec.{Codec}
use mcp_ironclaw.KafkaBus.{KafkaRecord, Produce}
use mcp_ironclaw.KafkaBus.Consumer.{Setup, dead_record, Handle, window_handle}
use mcp_ironclaw.Postgres.{Database, Store, apply_window}
use mcp_ironclaw.Postgres.Statements.{Table, conflicts, insert_window}
use mcp_ironclaw.Postgres.Deliveries.{same_row_refl}

insert-conflicts :
    (v w : AggregateWindow) (rows : Table)
    → conflicts v rows ≡ true
    → conflicts v (insert_window w rows).0 ≡ true
unfolding insert_window conflicts
insert-conflicts v w rows h = ground arith

inserted-conflicts :
    (w : AggregateWindow) (rows : Table) → conflicts w (insert_window w rows).0 ≡ true
unfolding insert_window conflicts
inserted-conflicts w rows = ground (arith, same_row_refl w)

-- The consumer's handler: a persister that writes to the store.
abbrev pub archive : {W : Type 0} → Database W → Codec → Handle (Handler (Store W))
archive db codec = window_handle codec (handle_window (apply_window db))

-- The row that a table makes of a window, given what its columns keep of an instant: a TIMESTAMPTZ
-- counts microseconds, and a window has nanoseconds.
abbrev pub row_of : (ℕ → ℕ) → AggregateWindow → AggregateWindow
row_of instant w = record w {
  window_start = instant w.window_start;
  window_end = instant w.window_end;
}

-- What the archive relies on, for windows of any instants: an insertion that succeeds has put the
-- window's row into the table or has found one of its primary key, and one that fails has done so or
-- has done nothing.
pub record StoresIn {W : Type 0} (db : Database W) (table : W → Table) (instant : ℕ → ℕ)
    : Type 0 where
  pub inserted :
      (w : AggregateWindow) (x : W) (n : ℕ)
      → (db.insert w x).1 ≡ ok n
      → (table (db.insert w x).0, n) ≡ insert_window (row_of instant w) (table x)
  pub insert_failed :
      (w : AggregateWindow) (x : W) (e : Error)
      → (db.insert w x).1 ≡ err e
      → (table (db.insert w x).0 ≡ table x)
        ⊎ (table (db.insert w x).0 ≡ (insert_window (row_of instant w) (table x)).0)

-- The table has a row of the primary key under which it keeps the window.
abbrev pub HasRow :
    {W : Type 0} → (W → Table) → (ℕ → ℕ) → AggregateWindow → Handler (Store W) → Type 0
HasRow table instant w v = conflicts (row_of instant w) (table v.world.world) ≡ true

-- The record's window has its row in the table.
abbrev pub IsDurable :
    {W : Type 0} → (W → Table) → (ℕ → ℕ) → Codec → KafkaRecord → Handler (Store W) → Type 0
IsDurable table instant codec r v =
    (w : AggregateWindow) × (codec.decode_window r.value ≡ ok w) × HasRow table instant w v

-- From one world of the dead-letter client to another through records that it has taken, in order.
module _ {S D : Type 0} (c : Setup S D) where
  pub data TakenBy : D → List KafkaRecord → D → Type 0 where
    none_taken : (d : D) → TakenBy d [] d
    next_taken :
        (r : KafkaRecord) (rs : List KafkaRecord) (produce : Produce D) (last : Option Error)
        (d d' d'' : D)
        → c.dead_letter ≡ some produce
        → (produce (dead_record c.message c.dead_letter_topic r last) d).1 ≡ none
        → d' ≡ (produce (dead_record c.message c.dead_letter_topic r last) d).0
        → TakenBy d' rs d''
        → TakenBy d (r ∷ rs) d''

abbrev pub IsIn : KafkaRecord → List KafkaRecord → Type 0
IsIn r rs = (before : List KafkaRecord) × (after : List KafkaRecord) × (rs ≡ before ++ r ∷ after)

-- The record's window is in the table, or the record is one of the dead letters.
abbrev pub IsSafe :
    {W : Type 0}
    → (W → Table)
    → (ℕ → ℕ)
    → Codec
    → List KafkaRecord
    → Handler (Store W)
    → KafkaRecord
    → Type 0
IsSafe table instant codec dead v r = IsDurable table instant codec r v ⊎ IsIn r dead

module _ {W : Type 0} (db : Database W) (table : W → Table) (instant : ℕ → ℕ)
    (runs : StoresIn db table instant) (codec : Codec) where
  -- Whatever `ApplyWindow` returns, the row is in the table or the table is as it was; when it
  -- returns no error, the row is.
  record IsStored (w : AggregateWindow) (s : Store W) : Type 0 where
    rows :
        (table (apply_window db w s).0.world ≡ table s.world)
        ⊎ (table (apply_window db w s).0.world
            ≡ (insert_window (row_of instant w) (table s.world)).0)
    done :
        (apply_window db w s).1 ≡ none
        → table (apply_window db w s).0.world ≡ (insert_window (row_of instant w) (table s.world)).0

  apply_window-IsStored : (w : AggregateWindow) (s : Store W) → IsStored w s
  unfolding apply_window
  apply_window-IsStored w s = elim (Result-cases (db.insert w s.world).1) [
    | inl (e, f) ↦
        let p = runs.insert_failed w s.world e f in
        record { rows = rw (f, apply_window) p; done = λ q. ground arith }
    | inr (n, f) ↦
        let p = ap (λ (y : Table × ℕ). y.0) (runs.inserted w s.world n f) in
        record { rows = rw (f, apply_window) (inr p); done = λ q. rw (f, apply_window) p }
  ]

  pub archive-HasRow :
      (r : KafkaRecord) (v : Handler (Store W)) (w : AggregateWindow)
      → HasRow table instant w v
      → HasRow table instant w (archive db codec r v).0
  unfolding window_handle handle_window
  archive-HasRow r v w h = elim (Result-cases (codec.decode_window r.value)) [
    | inl (e, f) ↦ rw (f, window_handle) h
    | inr (x, f) ↦
        let p = apply_window-IsStored x v.world in
        let kept : conflicts (row_of instant w) (table (apply_window db x v.world).0.world) ≡ true =
          elim p.rows [
            | inl e ↦ rw e h
            | inr e ↦
                rw e
                  (insert-conflicts (row_of instant w) (row_of instant x) (table v.world.world) h)
          ] in
        elim (Option-cases (apply_window db x v.world).1) [
          | inl g ↦ rw (f, window_handle, handle_window, g) kept
          | inr (e, g) ↦ rw (f, window_handle, handle_window, g) kept
        ]
  ]

  pub archive-IsDurable :
      (r : KafkaRecord) (v : Handler (Store W))
      → (archive db codec r v).1 ≡ none
      → IsDurable table instant codec r (archive db codec r v).0
  unfolding window_handle handle_window
  archive-IsDurable r v h = elim (Result-cases (codec.decode_window r.value)) [
    | inl (e, f) ↦ absurd (ground arith)
    | inr (x, f) ↦
        let p = apply_window-IsStored x v.world in
        elim (Option-cases (apply_window db x v.world).1) [
          | inl g ↦ (
            x,
            f,
            rw (f, window_handle, handle_window, g, p.done g)
                (inserted-conflicts (row_of instant x) (table v.world.world)),
          )
          | inr (e, g) ↦ absurd (ground arith)
        ]
  ]
