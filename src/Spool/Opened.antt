-- ===== src/Spool/Opened.antt =====
-- `Open` of internal/spool/spool.go: what a spool is like that was opened.
use mcp_ironclaw.Prelude.{
  ℕ, ◌+◌, ◌<◌, ◌≤◌, ◌≡◌, inl, inr, ◌⊎◌, List, map, arith, length, Option-cases,
}
use mcp_ironclaw.Go.Int64.{modulus, sign_bit}
use mcp_ironclaw.Go.Text.{Text, is_empty}
use mcp_ironclaw.Domain.Errors.{ok, Result-cases}
use mcp_ironclaw.Spool.{Spool, max_entries_of, trim_to_budget}
use mcp_ironclaw.Spool.Files.{Disk}
use mcp_ironclaw.Spool.Index.{IsIndexed, IsDistinct}
use mcp_ironclaw.Spool.Trimming.{trim_to_budget-IsTrimmed, trim_to_budget-IsIndexed}
use mcp_ironclaw.Spool.Opening.{DirEntry, Directory, empty_spool, recover, open_in, open_spool}
use mcp_ironclaw.Spool.Recovering.{listed, recover-IsRecovered}

-- What a directory lists: names that differ, and sizes whose sum leaves so much room in an int64.
abbrev pub IsListing : {W : Type 0} → Directory W → ℕ → Type 0
IsListing {W} f room =
    (x : W) (es : List DirEntry)
    → f.read_dir x ≡ ok es
    → IsDistinct (map (λ e. e.name) es) × (listed es + room < sign_bit)

-- A spool that was opened has an index that agrees with itself, and its bytes and its entries are
-- within the bounds of the budget, unless one deletion failed and was counted.
abbrev pub IsOpened : ℕ → ℕ → Spool → Type 0
IsOpened max_bytes room s =
    IsIndexed room s
    × (((s.bytes ≤ max_bytes) × (length s.order ≤ max_entries_of max_bytes))
        ⊎ (s.drop_failures ≡ 1))

module _ {W : Type 0} (d : Disk W) where
  open_in-IsOpened :
      (f : Directory W) (max_bytes room : ℕ) (x : W) (s : Spool)
      → IsListing f room
      → max_bytes < sign_bit
      → (open_in d f max_bytes x).1 ≡ ok s
      → IsOpened max_bytes room s
  unfolding open_in recover
  open_in-IsOpened f max_bytes room x s l b h = elim (Result-cases (f.read_dir x)) [
    | inl (e, g) ↦ absurd (ground arith)
    | inr (es, g) ↦ elim (Result-cases (recover d f (empty_spool max_bytes) x).1) [
      | inl (e, k) ↦ absurd (ground arith)
      | inr (r, k) ↦
          let (indexed, bytes, entries, failures) =
            recover-IsRecovered d f max_bytes room x es r g (l x es g).0 (l x es g).1 k in
          let y = (recover d f (empty_spool max_bytes) x).0 in
          let trimmed =
            trim_to_budget-IsTrimmed d room r y (omega (arith, bytes)) (omega (arith, failures))
              indexed in
          let same : s ≡ (trim_to_budget d (length r.order) (r, y)).0 = ground arith in
          rw same (
            trim_to_budget-IsIndexed d room (length r.order) r y indexed,
            ground (arith, trimmed, bytes, entries, failures),
          )
    ]
  ]

  -- When `Open` succeeds, the index agrees with itself: every entry stands once in the order and once
  -- in the sizes, and the byte count is the sum of the sizes. Its bytes and its entries are within the
  -- bounds of the budget, unless one deletion failed and was counted. The directory must list names
  -- that differ, and sizes whose sum is in the range of the byte count.
  pub open_spool-IsOpened :
      (f : Directory W) (dir : Text) (max_bytes room : ℕ) (x : W) (s : Spool)
      → IsListing f room
      → max_bytes < modulus
      → (open_spool d f dir max_bytes x).1 ≡ ok s
      → IsOpened max_bytes room s
  unfolding open_spool is_empty
  open_spool-IsOpened f dir max_bytes room x s l b h = elim (Option-cases (f.make_all x).1) [
    | inr (e, g) ↦ absurd (ground arith)
    | inl g ↦ elim (Option-cases (f.restrict (f.make_all x).0).1) [
      | inr (e, k) ↦ absurd (ground arith)
      | inl k ↦
          open_in-IsOpened f max_bytes room (f.restrict (f.make_all x).0).0 s l (ground arith)
            (ground arith)
    ]
  ]
