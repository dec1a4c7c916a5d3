-- ===== src/Postgres/Deliveries.antt =====
-- internal/postgresstore/store.go: deliveries of windows, in any order and number, where statements fail.
use mcp_ironclaw.Prelude.{
  ℕ, ap, ◌≡◌, inl, inr, refl, sym, ◌∙◌, true, ◌&&◌, none, some, [], ◌∷◌, map, arith, All,
  Bool-cases, if◌then◌else◌, select,
}
use mcp_ironclaw.Go.Int64.{sum64}
use mcp_ironclaw.Go.Text.{Text, text_eq, text_eq_iff, text_eq→eq, text_eq_refl, Lacks}
use mcp_ironclaw.Go.Map.{IsUnique, Map, find, total, string_eq}
use mcp_ironclaw.Domain.Key.{AggregateWindow, identity, append}
use mcp_ironclaw.Store.Memory.{device_key}
use mcp_ironclaw.Store.Memory.Devices.{key_of_window}
use mcp_ironclaw.Store.Memory.Tenants.{device_key-injective}
use mcp_ironclaw.Postgres.Statements.{
  Table, IsStorable, same_row, conflicts, insert_window, of_device, device_rows, column_sum,
}

-- The rows of a device by the identities of their windows.
abbrev pub rows_by_identity : Text → Text → Table → Map Text AggregateWindow
rows_by_identity user device rows = map (λ r. (identity r, r)) (device_rows user device rows)

pub same_row_refl : (r : AggregateWindow) → same_row r r ≡ true
unfolding same_row
same_row_refl r =
    ground (arith, text_eq_refl r.user_id, text_eq_refl r.device_id, text_eq_refl r.pod_id)

same_row-identity :
    (a b : AggregateWindow)
    → same_row a b ≡ true
    → (a.user_id ≡ b.user_id) × (a.device_id ≡ b.device_id) × (identity a ≡ identity b)
unfolding same_row identity append
same_row-identity a b h =
    let u : a.user_id ≡ b.user_id = text_eq→eq _ _ (ground arith) in
    let d : a.device_id ≡ b.device_id = text_eq→eq _ _ (ground arith) in
    let p : a.pod_id ≡ b.pod_id = text_eq→eq _ _ (ground arith) in
    let i : a.process_id ≡ b.process_id = ground arith in
    let w : a.window_id ≡ b.window_id = ground arith in
    let s : a.sequence ≡ b.sequence = ground arith in (u, d, cc)

pub column_sum-total :
    (f : AggregateWindow → ℕ) (user device : Text) (rows : Table)
    → column_sum f user device rows ≡ total f (rows_by_identity user device rows)
unfolding sum64 total select
column_sum-total f user device [] = refl
column_sum-total f user device (r ∷ rows) = ground (arith, column_sum-total f user device rows)

-- One window stands for each identity: what is delivered again is the same window.
module _ (window_of : Text → AggregateWindow) where
  abbrev pub IsCanonical : AggregateWindow → Type 0
  IsCanonical w = window_of (identity w) ≡ w

  -- A window that may be delivered: one that a table keeps, of a user without a closing brace.
  abbrev pub IsFit : AggregateWindow → Type 0
  IsFit w = IsCanonical w × IsStorable w × Lacks b'}' w.user_id

  same_row-text_eq :
      (a b : AggregateWindow)
      → IsCanonical a
      → IsCanonical b
      → same_row a b ≡ text_eq (identity b) (identity a)
  same_row-text_eq a b ca cb = elim (Bool-cases (text_eq (identity b) (identity a))) [
    | inl e ↦
        let same : b ≡ a = sym cb ∙ ap window_of (text_eq→eq _ _ e) ∙ ca in
        rw (e, same) (same_row_refl a)
    | inr e ↦ ground (arith, same_row-identity a b, text_eq_iff (identity b) (identity a))
  ]

  find-conflicts :
      (user device : Text) (w : AggregateWindow) (rows : Table)
      → IsCanonical w
      → All IsCanonical rows
      → of_device user device w ≡ true
      → find (identity w) (rows_by_identity user device rows)
        ≡ (if conflicts w rows then some w else none)
  unfolding conflicts find select
  find-conflicts user device w [] cw c h = refl
  find-conflicts user device w (r ∷ rows) cw c h =
      let tail = find-conflicts user device w rows cw c.1 h in
      elim (Bool-cases (text_eq (identity r) (identity w))) [
        | inl e ↦
            let same : r ≡ w = sym c.0 ∙ ap window_of (text_eq→eq _ _ e) ∙ cw in
            rw (same, h, same_row_refl w) (ground (arith, text_eq_refl (identity w)))
        | inr e ↦ ground (arith, tail, same_row-text_eq w r cw c.0)
      ]

  pub conflicts-canonical :
      (w : AggregateWindow) (rows : Table)
      → IsCanonical w
      → All IsCanonical rows
      → All IsCanonical (insert_window w rows).0
  unfolding insert_window
  conflicts-canonical w rows cw c = elim (Bool-cases (conflicts w rows)) [
    | inl e ↦ rw (e, insert_window) c
    | inr e ↦ rw (e, insert_window) (cw, c)
  ]

  -- In the rows of a device an insertion binds the identity of its window, when it is one of the device.
  pub find-insert_window :
      (user device : Text) (w : AggregateWindow) (rows : Table) (i : Text)
      → IsCanonical w
      → All IsCanonical rows
      → find i (rows_by_identity user device (insert_window w rows).0) ≡ (
          if of_device user device w && text_eq (identity w) i
          then some w
          else find i (rows_by_identity user device rows))
  unfolding insert_window find select
  find-insert_window user device w rows i cw c = elim (Bool-cases (of_device user device w)) [
    | inr out ↦ ground (arith)
    | inl here ↦
        ground (arith, find-conflicts user device w rows cw c here, text_eq_iff (identity w) i)
  ]

  pub insert_window-IsUnique :
      (user device : Text) (w : AggregateWindow) (rows : Table)
      → IsCanonical w
      → All IsCanonical rows
      → IsUnique (rows_by_identity user device rows)
      → IsUnique (rows_by_identity user device (insert_window w rows).0)
  unfolding insert_window IsUnique select
  insert_window-IsUnique user device w rows cw c u = elim (Bool-cases (of_device user device w)) [
    | inr out ↦ ground arith
    | inl here ↦ ground (arith, find-conflicts user device w rows cw c here)
  ]

pub of_device-text_eq :
    (user device : Text) (w : AggregateWindow)
    → Lacks b'}' user
    → Lacks b'}' w.user_id
    → text_eq (key_of_window w) (device_key user device) ≡ of_device user device w
of_device-text_eq user device w h hw = ground (
  arith,
  device_key-injective w.user_id user w.device_id device hw h,
  text_eq_iff (key_of_window w) (device_key user device),
  text_eq_iff w.user_id user,
  text_eq_iff w.device_id device,
)
