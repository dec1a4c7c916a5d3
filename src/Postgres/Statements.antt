-- ===== src/Postgres/Statements.antt =====
-- internal/postgresstore/store.go: what its SQL statements say of the table `aggregate_windows`. A row has
-- the columns of a window; `applied_at` is left out, since no statement reads it. A table has no order.
use mcp_ironclaw.Prelude.{
  ℕ, ◌%◌, ◌≡◌, Bool, false, ◌&&◌, ◌||◌, not, List, [], ◌∷◌, map, length, select, ◌==◌,
  if◌then◌else◌,
}
use mcp_ironclaw.Go.Int64.{sum64}
use mcp_ironclaw.Go.Text.{Text, text_eq}
use mcp_ironclaw.Domain.Key.{AggregateWindow}

abbrev pub Table : Type 0
Table = List AggregateWindow

-- PRIMARY KEY (user_id, device_id, process_id, pod_id, window_id, sequence, window_start)
unfoldable pub same_row : AggregateWindow → AggregateWindow → Bool
same_row a b =
    text_eq a.user_id b.user_id
    && text_eq a.device_id b.device_id
    && a.process_id == b.process_id
    && text_eq a.pod_id b.pod_id
    && a.window_id == b.window_id
    && a.sequence == b.sequence
    && a.window_start == b.window_start

-- Whether a row of the same primary key stands in the table.
unfoldable pub conflicts : AggregateWindow → Table → Bool
conflicts w [] = false
conflicts w (r ∷ rows) = same_row w r || conflicts w rows

-- INSERT … ON CONFLICT … DO NOTHING, and the rows that it affects.
unfoldable pub insert_window : AggregateWindow → Table → Table × ℕ
insert_window w rows = if conflicts w rows then (rows, 0) else (w ∷ rows, 1)

-- WHERE user_id = $1 AND device_id = $2
abbrev pub of_device : Text → Text → AggregateWindow → Bool
of_device user device r = text_eq r.user_id user && text_eq r.device_id device

abbrev pub device_rows : Text → Text → Table → Table
device_rows user device rows = select (of_device user device) rows

-- DELETE FROM aggregate_windows WHERE …, and the rows that it affects.
unfoldable pub delete_device : Text → Text → Table → Table × ℕ
delete_device user device rows =
    (select (λ r. not (of_device user device r)) rows, length (device_rows user device rows))

-- The sums of `selectDeviceState`, as int64: a sum outside that range cannot be scanned.
abbrev pub column_sum : (AggregateWindow → ℕ) → Text → Text → Table → ℕ
column_sum column user device rows = sum64 (map column (device_rows user device rows))

-- A window whose instants a TIMESTAMPTZ keeps, which counts microseconds.
abbrev pub IsStorable : AggregateWindow → Type 0
IsStorable w = (w.window_start % 1000 ≡ 0) × (w.window_end % 1000 ≡ 0)
