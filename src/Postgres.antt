-- ===== src/Postgres.antt =====
-- internal/postgresstore/store.go: the windows in a table of Postgres. The database is a component of its
-- own: a record of the statements that the code runs, each on a world, with what the driver returns.
pub mod Agreement
pub mod Archive
pub mod Counts
pub mod Deliveries
pub mod Durable
pub mod Examples
mod DurableExamples
pub mod Keys
pub mod Migration
pub mod Partitions
pub mod Statements
use mcp_ironclaw.Prelude.{
  ℕ, ◌+◌, ◌*◌, ◌≡◌, ◌⊎◌, Bool, true, false, not, ◌&&◌, Option, none, some, List, [], ◌∷◌, ◌++◌, leb,
  ◌==◌, if◌then◌else◌,
}
use mcp_ironclaw.Go.Text.{Text, codes}
use mcp_ironclaw.Go.Time
use mcp_ironclaw.Domain.Errors.{Error, Result, ok, err, device_not_found}
use mcp_ironclaw.Domain.Key.{AggregateWindow, DeviceState}
use mcp_ironclaw.Store.Memory.{DeviceListing}
use mcp_ironclaw.Services.Metrics.{Recorder, record_sample}
use mcp_ironclaw.Postgres.Statements.{
  Table, IsStorable, column_sum, delete_device, device_rows, insert_window,
}

abbrev pub metric_windows_persisted : Text
metric_windows_persisted = codes "postgres_windows_persisted"

abbrev pub metric_windows_duplicate : Text
metric_windows_duplicate = codes "postgres_windows_duplicate"

-- The row of `selectDeviceState`.
pub record Totals : Type 0 where
  pub count : ℕ
  pub error_count : ℕ
  pub bytes : ℕ
  pub last_window_id : ℕ

-- The row of `selectLatestPercentiles`.
pub record Latest : Type 0 where
  pub p95_nanos : ℕ
  pub p99_nanos : ℕ
  pub window_end : ℕ

-- The rows that a query goes through, each with what `Scan` makes of it, and `rows.Err()`.
pub record Rows : Type 0 where
  pub scanned : List (Result Text)
  pub failure : Option Error

-- The statements that the methods run. A query for one row that finds none returns `pgx.ErrNoRows`,
-- which is `none` here.
pub record Database (W : Type 0) : Type 0 where
  pub insert : AggregateWindow → W → W × Result ℕ
  pub totals : Text → Text → W → Result Totals
  pub exists_row : Text → Text → W → Result Bool
  pub latest : Text → Text → ℕ → W → Result (Option Latest)
  pub devices : Text → W → Result Rows
  pub delete : Text → Text → W → W × Result ℕ

-- What the store relies on: a statement that succeeds has done to the table what it says, and has
-- said how many rows it affected; one that fails has done so or has done nothing, since the connection
-- may be lost after the commit.
pub record RunsOn {W : Type 0} (db : Database W) (table : W → Table) : Type 0 where
  pub inserted :
      (w : AggregateWindow) (x : W) (n : ℕ)
      → IsStorable w
      → (db.insert w x).1 ≡ ok n
      → (table (db.insert w x).0, n) ≡ insert_window w (table x)
  pub insert_failed :
      (w : AggregateWindow) (x : W) (e : Error)
      → IsStorable w
      → (db.insert w x).1 ≡ err e
      → (table (db.insert w x).0 ≡ table x)
        ⊎ (table (db.insert w x).0 ≡ (insert_window w (table x)).0)
  pub deleted :
      (user device : Text) (x : W) (n : ℕ)
      → (db.delete user device x).1 ≡ ok n
      → (table (db.delete user device x).0, n) ≡ delete_device user device (table x)
  pub summed :
      (user device : Text) (x : W) (t : Totals)
      → db.totals user device x ≡ ok t
      → (t.count ≡ column_sum (λ w. w.count) user device (table x))
        × (t.error_count ≡ column_sum (λ w. w.error_count) user device (table x))
        × (t.bytes ≡ column_sum (λ w. w.bytes) user device (table x))

pub record Store (W : Type 0) : Type 0 where
  pub world : W
  pub metrics : Recorder

-- The end of `DeviceState`: lastSeen is set when it is after the first second of 1970.
abbrev pub seen : ℕ → ℕ
seen t = if not (Time.is_zero t) && leb (Time.epoch + 1_000_000_000) t then t else Time.zero_time

abbrev pub state_of : Text → Text → Totals → Option Latest → DeviceState
state_of user device t latest = record {
  user_id = user;
  device_id = device;
  count = t.count;
  error_count = t.error_count;
  bytes = t.bytes;
  p95_nanos = elim latest [ none ↦ 0 | some l ↦ l.p95_nanos ];
  p99_nanos = elim latest [ none ↦ 0 | some l ↦ l.p99_nanos ];
  last_window_id = t.last_window_id;
  last_seen = elim latest [ none ↦ Time.zero_time | some l ↦ seen l.window_end ];
  stale = false;
}

-- The loop over `rows.Next()`, and `rows.Err()` beside the listing.
unfoldable pub scan_devices :
    List (Result Text) → List Text → Option Error → DeviceListing × Option Error
scan_devices [] devices failure = (record { devices = devices; stale = false }, failure)
scan_devices (err e ∷ rows) devices failure = (record { devices = []; stale = false }, some e)
scan_devices (ok d ∷ rows) devices failure = scan_devices rows (devices ++ d ∷ []) failure

module _ {W : Type 0} (db : Database W) where
  unfoldable pub apply_window : AggregateWindow → Store W → Store W × Option Error
  apply_window w s =
      let (world, tag) = db.insert w s.world in
      elim tag [
        | err e ↦ (record s { world = world }, some e)
        | ok affected ↦
            let name =
              if affected == 0 then metric_windows_duplicate else metric_windows_persisted in
            (record { world = world; metrics = record_sample name 1 s.metrics }, none)
      ]

  -- if state.Count == 0 && state.LastWindowID == 0 { … }: what is asked, and the error of it.
  unfoldable pub check_device : Text → Text → Totals → W → Option Error
  check_device user device t x =
      if t.count == 0 && t.last_window_id == 0
      then elim (db.exists_row user device x) [
        | err e ↦ some e
        | ok exists ↦ if exists then none else some device_not_found
      ]
      else none

  unfoldable pub device_state : Text → Text → W → Result DeviceState
  device_state user device x = elim (db.totals user device x) [
    | err e ↦ err e
    | ok t ↦ elim (check_device user device t x) [
      | some e ↦ err e
      | none ↦ elim (db.latest user device t.last_window_id x) [
        | err e ↦ err e
        | ok latest ↦ ok (state_of user device t latest)
      ]
    ]
  ]

  unfoldable pub user_devices : Text → W → DeviceListing × Option Error
  user_devices user x = elim (db.devices user x) [
    | err e ↦ (record { devices = []; stale = false }, some e)
    | ok rows ↦ scan_devices rows.scanned [] rows.failure
  ]

  unfoldable pub reset_device : Text → Text → W → W × Option Error
  reset_device user device x =
      let (world, tag) = db.delete user device x in
      elim tag [
        | err e ↦ (world, some e)
        | ok affected ↦ if affected == 0 then (world, some device_not_found) else (world, none)
      ]
