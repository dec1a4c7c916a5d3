-- ===== src/Postgres/Agreement.antt =====
-- internal/postgresstore/store.go beside internal/store/memory.go: where the two stores agree, and where
-- they do not.
use mcp_ironclaw.Prelude.{
  ◌==◌, ◌%◌, not, ℕ, ap, ◌≡◌, inl, inr, refl, sym, ◌∙◌, false, none, List, [], ◌∷◌, map, arith, All,
  Bool-cases, select,
}
use mcp_ironclaw.Go.Text.{Text, text_eq_iff, text_eq_refl, Lacks}
use mcp_ironclaw.Go.Map.{IsUnique, find, string_eq}
use mcp_ironclaw.Go.Map.Totals.{total_determined}
use mcp_ironclaw.Domain.Errors.{ok, Result-cases}
use mcp_ironclaw.Domain.Key.{AggregateWindow, DeviceState}
use mcp_ironclaw.Store.Memory.{device_key, new_memory, Memory}
use mcp_ironclaw.Store.Memory.{apply_window as apply_in_memory, reset_device as reset_in_memory}
use mcp_ironclaw.Store.Memory.Devices.{
  Steps, key_of_window, redelivery_ignored, find-reset_device, find-apply_window,
}
use mcp_ironclaw.Store.Memory.Lifecycle.{Step}
use mcp_ironclaw.Go.Int64.{modulus, sum64}
use mcp_ironclaw.Store.Memory.{device_state as state_in_memory}
use mcp_ironclaw.Store.Memory.Ledger.{apply_all as apply_all_in_memory}
use mcp_ironclaw.Store.Memory.Ledger.{
  ledger_of, find-ledger_of, ledger_of-IsUnique, counts_refine_ledger,
}
use mcp_ironclaw.Postgres.{Database, RunsOn, Store, apply_window, device_state, reset_device}
use mcp_ironclaw.Postgres.Statements.{
  device_rows, Table, IsStorable, insert_window, of_device, column_sum, delete_device, conflicts,
  same_row,
}
use mcp_ironclaw.Postgres.Deliveries.{IsFit, rows_by_identity, column_sum-total}
use mcp_ironclaw.Postgres.Counts.{
  apply_window-IsApplied, IsSound, IsSettled, apply_all, apply_all-IsSound, entry-settled,
}

-- The counts of two states agree.
abbrev pub HasSameCounts : DeviceState → DeviceState → Type 0
HasSameCounts s t = (s.count ≡ t.count) × (s.error_count ≡ t.error_count) × (s.bytes ≡ t.bytes)

-- The rows that a deletion leaves are none of the device, and no window of it conflicts with them.
rest-alone :
    (w : AggregateWindow) (rows : Table)
    → let kept = select (λ r. not (of_device w.user_id w.device_id r)) rows in
      (device_rows w.user_id w.device_id kept ≡ []) × (conflicts w kept ≡ false)
unfolding select conflicts same_row
rest-alone w [] = (refl, refl)
rest-alone w (r ∷ rows) = ground (
  arith,
  rest-alone w rows,
  text_eq_iff r.user_id w.user_id,
  text_eq_iff w.user_id r.user_id,
  text_eq_iff r.device_id w.device_id,
  text_eq_iff w.device_id r.device_id,
)

module _ {W : Type 0} (db : Database W) (table : W → Table) (runs : RunsOn db table) where
  -- The counts that `DeviceState` reads are the sums over the rows of the device.
  device_state-sums :
      (user device : Text) (x : W) (p : DeviceState)
      → device_state db user device x ≡ ok p
      → (p.count ≡ column_sum (λ w. w.count) user device (table x))
        × (p.error_count ≡ column_sum (λ w. w.error_count) user device (table x))
        × (p.bytes ≡ column_sum (λ w. w.bytes) user device (table x))
  unfolding device_state
  device_state-sums user device x p e = elim (Result-cases (db.totals user device x)) [
    | inl (f, q) ↦ absurd (ground arith)
    | inr (t, q) ↦ let sums = runs.summed user device x t q in ground (arith, sums)
  ]

  -- The two stores agree on the counts of a device, its events, failed events and bytes, when
  -- both are read, whatever windows are delivered to both, in whatever order and however often,
  -- and although statements of Postgres fail, even after they have been committed: as long as
  -- every window of the device is taken by Postgres without an error on one of its deliveries,
  -- and what is delivered under one identity is one window. The table must have been empty, the
  -- instants of the windows whole microseconds, and no user's identifier may hold a closing
  -- brace.
  pub stores_agree :
      (window_of : Text → AggregateWindow) (user device : Text) (ws : List AggregateWindow)
      (s : Store W) (m p : DeviceState)
      → Lacks b'}' user
      → All (IsFit window_of) ws
      → table s.world ≡ []
      → IsSettled db user device ws s
      → state_in_memory none user device (apply_all_in_memory ws new_memory) ≡ ok m
      → device_state db user device (apply_all db ws s).world ≡ ok p
      → HasSameCounts p m
  unfolding find IsUnique select
  stores_agree window_of user device ws s m p l fit empty settled em ep =
      let s' = apply_all db ws s in
      let key = device_key user device in
      let rows = rows_by_identity user device (table s'.world) in
      let start : IsSound db table runs window_of user device s.world = record {
        canonical = rw empty tt;
        unique = rw empty tt;
      } in
      let sound = apply_all-IsSound db table runs window_of user device ws s fit start in
      let same : (i : Text) → find i rows ≡ find i (ledger_of key ws []) = λ i.
        entry-settled db table runs window_of user device ws s i l fit empty settled
        ∙ sym (find-ledger_of key i ws []) in
      let totals = λ (f : AggregateWindow → ℕ).
        column_sum-total f user device (table s'.world)
        ∙ total_determined f rows (ledger_of key ws []) sound.unique
            (ledger_of-IsUnique key ws [] tt) same in
      let (c, f, b) = counts_refine_ledger ws user device m em in
      let (c', f', b') = device_state-sums user device s'.world p ep in
      (
        c' ∙ totals (λ w. w.count) ∙ sym c,
        f' ∙ totals (λ w. w.error_count) ∙ sym f,
        b' ∙ totals (λ w. w.bytes) ∙ sym b,
      )

  reset_device-rows :
      (user device : Text) (x : W)
      → (reset_device db user device x).1 ≡ none
      → table (reset_device db user device x).0 ≡ (delete_device user device (table x)).0
  unfolding reset_device
  reset_device-rows user device x done = elim (Result-cases (db.delete user device x).1) [
    | inl (e, f) ↦ absurd (ground arith)
    | inr (n, f) ↦
        let rows = ap (λ (y : Table × ℕ). y.0) (runs.deleted user device x n f) in
        elim (Bool-cases (n == 0)) [
          | inl z ↦ absurd (ground arith)
          | inr z ↦ rw (f, z, reset_device) rows
        ]
  ]

  -- A reset and a delivery leave one row of the device.
  reset-apply-rows :
      (w : AggregateWindow) (s : Store W)
      → IsStorable w
      → let (x, failure) = reset_device db w.user_id w.device_id s.world in
        let (s', failure') = apply_window db w (record s { world = x }) in
        failure ≡ none
        → failure' ≡ none
        → device_rows w.user_id w.device_id (table s'.world) ≡ w ∷ []
  unfolding insert_window delete_device select
  reset-apply-rows w s h done done' =
      let x = (reset_device db w.user_id w.device_id s.world).0 in
      let deleted = reset_device-rows w.user_id w.device_id s.world done in
      let p = (apply_window-IsApplied db table runs w (record s { world = x }) h).done done' in
      let (alone, free) = rest-alone w (table s.world) in
      rw (p, deleted, delete_device, free)
        (ground (arith, alone, free, text_eq_refl w.user_id, text_eq_refl w.device_id))

  -- After a reset Postgres counts a window that is delivered once more, although it may have
  -- counted it before, while the store in memory ignores one that it has applied: whatever the
  -- stores held, when the reset and the delivery succeed, the count that is then read from
  -- Postgres is the window's, and the count in memory is zero. The instants of the window must be
  -- whole microseconds.
  pub reset_counts_again :
      (w : AggregateWindow) (s : Store W) (m : Memory) (p q : DeviceState)
      → IsStorable w
      → let (x, failure) = reset_device db w.user_id w.device_id s.world in
        let (s', failure') = apply_window db w (record s { world = x }) in
        let applied = (apply_in_memory none w m).0 in
        let m' =
          (apply_in_memory none w (reset_in_memory none w.user_id w.device_id applied).0).0 in
        failure ≡ none
        → failure' ≡ none
        → device_state db w.user_id w.device_id s'.world ≡ ok p
        → state_in_memory none w.user_id w.device_id m' ≡ ok q
        → (p.count ≡ w.count % modulus) × (q.count ≡ 0)
  unfolding state_in_memory sum64
  reset_counts_again w s m p q h done done' ep eq =
      let key = key_of_window w in
      let applied = (apply_in_memory none w m).0 in
      let reset = (reset_in_memory none w.user_id w.device_id applied).0 in
      let one = reset-apply-rows w s h done done' in
      let (sum, _, _) = device_state-sums w.user_id w.device_id _ p ep in
      let ignored =
        redelivery_ignored w m reset
          (Steps.more Steps.done (Step.resetting none w.user_id w.device_id applied)) key in
      (
        sum ∙ ap (λ rows. sum64 (map (λ w. w.count) rows)) one ∙ omega arith,
        ground (
          arith,
          ignored,
          find-reset_device w.user_id w.device_id applied key,
          find-apply_window w m key,
          text_eq_refl key,
        ),
      )
