-- ===== src/Postgres/Examples.antt =====
-- The theorems on the store in Postgres at a concrete database, which may lose the reply to a statement
-- after it was committed, and at a connection that runs each statement on the tables themselves.
use mcp_ironclaw.Prelude.{
  All, not, ℕ, ◌+◌, ◌*◌, ◌%◌, ◌≡◌, refl, inr, Bool, true, false, none, some, List, [], ◌∷◌, arith,
  ltb, select, length, if◌then◌else◌, ◌==◌, map,
}
use mcp_ironclaw.Go.Int64.{modulus, sum64}
use mcp_ironclaw.Go.Text.{Text, codes, text_eq}
use mcp_ironclaw.Go.Time.{epoch, zero_time}
use mcp_ironclaw.Domain.Errors.{Result, ok, err, foreign}
use mcp_ironclaw.Domain.Key.{AggregateWindow, DeviceState, identity, append}
use mcp_ironclaw.Go.Strconv.{format_int, digits}
use mcp_ironclaw.Go.Map.{find, put, get_or}
use mcp_ironclaw.Store.Memory.{new_memory, known, apply_known, device_key, notify_all}
use mcp_ironclaw.Store.Memory.Records.{refresh, add_counts}
use mcp_ironclaw.Store.Memory.{reset_device as reset_in_memory}
use mcp_ironclaw.Postgres.{reset_device}
use mcp_ironclaw.Store.Memory.{apply_window as apply_in_memory, device_state as state_in_memory}
use mcp_ironclaw.Store.Memory.Ledger.{apply_all as apply_all_in_memory, first_delivered}
use mcp_ironclaw.Postgres.{apply_window, device_state, check_device}
use mcp_ironclaw.Postgres.Counts.{apply_all, succeeded, IsSettled}
use mcp_ironclaw.Postgres.Deliveries.{IsFit}
use mcp_ironclaw.Postgres.{Database, RunsOn, Store, Totals}
use mcp_ironclaw.Postgres.Statements.{
  Table, column_sum, delete_device, device_rows, insert_window, conflicts, same_row,
}
use mcp_ironclaw.Postgres.Agreement.{HasSameCounts, stores_agree, reset_counts_again}
use mcp_ironclaw.Postgres.Keys.{IsKeyed}
use mcp_ironclaw.Postgres.Migration.{ensure_partitions-keeps}
use mcp_ironclaw.Postgres.Partitions.{
  Connection, IsTransactional, Tables, ensure_partitions, in_range, perform, visible,
}

abbrev window : ℕ → ℕ → AggregateWindow
window window_id count = record {
  key = record { user_id = codes "u"; device_id = codes "d"; process_id = 7; pod_id = codes "p" };
  window_id = window_id;
  sequence = window_id;
  window_start = epoch + window_id * 1_000_000_000;
  window_end = epoch + window_id * 1_000_000_000 + 1_000_000_000;
  count = count;
  error_count = 1;
  bytes = 100 * count;
  p95_nanos = 5;
  p99_nanos = 6;
  max_nanos = 7;
}

abbrev pub first : AggregateWindow
first = window 1 3

abbrev second : AggregateWindow
second = window 2 4

-- A table, and which of the next replies are lost.
abbrev pub World : Type 0
World = Table × List Bool

abbrev pub reply : {A : Type 0} → A → List Bool → Result A × List Bool
reply a [] = (ok a, [])
reply a (true ∷ lost) = (err (foreign 1), lost)
reply a (false ∷ lost) = (ok a, lost)

abbrev pub statement : Table × ℕ → List Bool → World × Result ℕ
statement (rows, n) lost = let (r, lost') = reply n lost in ((rows, lost'), r)

abbrev largest : List ℕ → ℕ
largest [] = 0
largest (n ∷ ns) = if ltb (largest ns) n then n else largest ns

abbrev totals_of : Text → Text → Table → Totals
totals_of user device rows = record {
  count = column_sum (λ w. w.count) user device rows;
  error_count = column_sum (λ w. w.error_count) user device rows;
  bytes = column_sum (λ w. w.bytes) user device rows;
  last_window_id = largest (map (λ w. w.window_id) (device_rows user device rows));
}

abbrev pub database : Database World
database = record {
  insert = λ w x. statement (insert_window w x.0) x.1;
  totals = λ user device x. ok (totals_of user device x.0);
  exists_row = λ user device x. ok (not (length (device_rows user device x.0) == 0));
  latest =
      λ user device i x. ok (some (record { p95_nanos = 5; p99_nanos = 6; window_end = epoch }));
  devices = λ user x. ok (record { scanned = []; failure = none });
  delete = λ user device x. statement (delete_device user device x.0) x.1;
}

pub reply-ok : (n m : ℕ) (lost : List Bool) → (reply n lost).0 ≡ ok m → n ≡ m
reply-ok n m [] h = ground arith
reply-ok n m (true ∷ lost) h = ground arith
reply-ok n m (false ∷ lost) h = ground arith

database-RunsOn : RunsOn database (λ x. x.0)
database-RunsOn = record {
  inserted = λ w x n h e. ground (arith, reply-ok (insert_window w x.0).1 n x.1);
  insert_failed = λ w x e h f. inr refl;
  deleted = λ user device x n e. ground (arith, reply-ok (delete_device user device x.0).1 n x.1);
  summed = λ user device x t e.
      let same : totals_of user device x.0 ≡ t = cc in rw (← same) (refl, refl, refl);
}

-- The first delivery is committed and its reply is lost, so that it is delivered again; the bus
-- repeats it once more after the second window.
abbrev deliveries : List AggregateWindow
deliveries = first ∷ first ∷ second ∷ first ∷ []

abbrev start : Store World
start = record { world = ([], true ∷ []); metrics = none }

abbrev canonical : Text → AggregateWindow
canonical i = if text_eq i (identity second) then second else first

abbrev counts : ℕ → ℕ → ℕ → DeviceState
counts count errors bytes = record {
  user_id = codes "u";
  device_id = codes "d";
  count = count;
  error_count = errors;
  bytes = bytes;
  p95_nanos = 5;
  p99_nanos = 6;
  last_window_id = 2;
  last_seen = epoch + 3_000_000_000;
  stale = false;
}

abbrev in_postgres : DeviceState
in_postgres = record (counts 7 2 700) { last_seen = zero_time }

deliveries-IsSettled : IsSettled database (codes "u") (codes "d") deliveries start
unfolding first_delivered
deliveries-IsSettled i =
    let taken : succeeded database deliveries start ≡ first ∷ second ∷ first ∷ [] =
      unfold succeeded apply_window insert_window conflicts same_row text_eq in refl in
    rw taken (ground arith)

deliveries-IsFit : All (IsFit canonical) deliveries
unfolding identity append text_eq format_int digits
deliveries-IsFit =
    let one : IsFit canonical first = (refl, (refl, refl), omega arith) in
    let two : IsFit canonical second = (refl, (refl, refl), omega arith) in
    (one, (one, (two, (one, tt))))

in_postgres-read :
    device_state database (codes "u") (codes "d") (apply_all database deliveries start).world
    ≡ ok in_postgres
unfolding device_state check_device apply_all apply_window insert_window conflicts same_row text_eq
    sum64 select
in_postgres-read = refl

stores_agree_example : HasSameCounts in_postgres (counts 7 2 700)
unfolding apply_in_memory known apply_known identity append format_int digits text_eq device_key
    find put get_or refresh add_counts notify_all state_in_memory apply_all_in_memory
stores_agree_example =
    stores_agree database (λ x. x.0) database-RunsOn canonical (codes "u") (codes "d") deliveries
      start (counts 7 2 700) in_postgres (omega arith) deliveries-IsFit refl deliveries-IsSettled
      refl in_postgres-read

-- The window is counted, the device is reset, and the window is delivered again.
abbrev counted : Store World
counted = record { world = (first ∷ [], []); metrics = none }

abbrev again : DeviceState
again = record (counts 3 1 300) { last_window_id = 1; last_seen = zero_time }

abbrev state_after_reset : DeviceState
state_after_reset = record (counts 0 0 0) {
  p95_nanos = 0;
  p99_nanos = 0;
  last_window_id = 1;
  last_seen = epoch + 2_000_000_000;
}

again-read :
    device_state database
      (codes "u")
      (codes "d")
      (apply_window database first (record counted {
        world = (reset_device database (codes "u") (codes "d") counted.world).0;
      })).0.world
    ≡ ok again
unfolding device_state check_device reset_device delete_device apply_window insert_window conflicts
    same_row text_eq sum64 select
again-read = refl

reset_counts_again_example : (again.count ≡ 3 % modulus) × (state_after_reset.count ≡ 0)
unfolding apply_in_memory known apply_known identity append format_int digits text_eq device_key
    find put get_or refresh add_counts notify_all state_in_memory reset_in_memory reset_device
    delete_device apply_window insert_window conflicts same_row select
reset_counts_again_example =
    reset_counts_again database (λ x. x.0) database-RunsOn first counted new_memory again
      state_after_reset (refl, refl) refl refl again-read refl

-- A connection whose transactions work on the tables themselves.
abbrev connection : Connection Tables Tables
connection = record {
  ensure = λ start end x. (
    x,
    if length (select (in_range start end) x.default_rows) == 0
        then none
        else some (foreign 23_514),
  );
  begin = λ x. (x, ok x);
  exec = λ start end st t. (perform start end st t, none);
  commit = λ t x. (t, none);
  rollback = λ t x. x;
  is_check_violation = λ e. true;
}

connection-IsTransactional : IsTransactional connection (λ x. x) (λ t. t)
connection-IsTransactional = record {
  ensured = λ start end x. refl;
  begun = λ x. refl;
  isolated = λ x t e. cc;
  executed = λ start end st t e. refl;
  committed = λ t x e. refl;
  commit_failed = λ t x e f. inr refl;
  rolled_back = λ t x. refl;
}

-- The first window waits in the default partition.
abbrev tables : Tables
tables = record { attached = true; default_rows = first ∷ []; daily_rows = second ∷ [] }

ensure_partitions-keeps_example :
    let t = (ensure_partitions connection epoch 2 tables).0 in
    (t.attached ≡ true)
    × IsKeyed (visible t)
    × ((f : AggregateWindow → ℕ) (user device : Text)
        → column_sum f user device (visible t) ≡ column_sum f user device (visible tables))
unfolding IsKeyed conflicts same_row text_eq
ensure_partitions-keeps_example =
    ensure_partitions-keeps connection (λ x. x) (λ t. t) connection-IsTransactional epoch 2 tables
      refl (refl, (refl, tt))
