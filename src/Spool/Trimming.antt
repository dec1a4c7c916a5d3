-- ===== src/Spool/Trimming.antt =====
-- `trimToBudget` of internal/spool/spool.go, the loop that ends the opening of a spool.
use mcp_ironclaw.Prelude.{
  if◌then◌else◌, if_both, Bool, Bool, leb, ◌<◌, ◌≤◌, length, List-cases, ℕ, zero, suc, ◌+◌, ◌≡◌, ap,
  inl, inr, ◌⊎◌, false, [], arith, Bool-cases, ◌||◌, not,
}
use mcp_ironclaw.Go.Int64.{modulus, sign_bit, slt}
use mcp_ironclaw.Go.Text.{Text}
use mcp_ironclaw.Spool.{forget_entry, Spool, remove_locked, drop_oldest, trim_to_budget}
use mcp_ironclaw.Spool.Files.{Disk}
use mcp_ironclaw.Spool.Index.{IsIndexed}
use mcp_ironclaw.Spool.Enqueue.{drop_oldest-IsIndexed}
use mcp_ironclaw.Spool.Budget.{IsFailed, drop_oldest_lem, empty_order}

-- The test of the loop.
abbrev is_over : Spool → Bool
is_over s = slt s.max_bytes s.bytes || not (leb (length s.order) s.max_entries)

-- The bytes and the entries are within the bounds, or a deletion failed.
abbrev pub IsTrimmed : Spool → Spool → Type 0
IsTrimmed s t = (t.bytes ≤ s.max_bytes) × (length t.order ≤ s.max_entries) ⊎ IsFailed s t

not_over :
    (room : ℕ) (s : Spool)
    → is_over s ≡ false
    → s.max_bytes < sign_bit
    → IsIndexed room s
    → IsTrimmed s s
not_over room s c b h = inl (ground (arith, c, b, h.bytes, h.small))

IsTrimmed-empty : (room : ℕ) (s : Spool) → s.order ≡ [] → IsIndexed room s → IsTrimmed s s
IsTrimmed-empty room s e h = inl (omega (arith, empty_order room s e h), omega (arith, ap length e))

carry :
    (s t r : Spool)
    → t.max_bytes ≡ s.max_bytes
    → t.max_entries ≡ s.max_entries
    → t.drop_failures ≡ s.drop_failures
    → IsTrimmed t r
    → IsTrimmed s r
carry s t r m n f h = ground (arith, m, n, f, h)

module _ {W : Type 0} (d : Disk W) where
  drop_oldest-entries :
      (name : Text) (s : Spool) (x : W)
      → (drop_oldest d name (s, x)).0.0.max_entries ≡ s.max_entries
  unfolding drop_oldest remove_locked forget_entry
  drop_oldest-entries name s x = ground arith

  trim_within :
      (n room : ℕ) (s : Spool) (x : W)
      → length s.order ≤ n
      → s.max_bytes < sign_bit
      → s.drop_failures + 1 < modulus
      → IsIndexed room s
      → IsTrimmed s (trim_to_budget d n (s, x)).0
  unfolding trim_to_budget
  trim_within zero room s x l b w h = elim (List-cases s.order) [
    | inl e ↦ IsTrimmed-empty room s e h
    | inr (name, names, e) ↦ ground (arith, l, ap length e)
  ]
  trim_within (suc n) room s x l b w h = elim (List-cases s.order) [
    | inl e ↦ rw (e, trim_to_budget) (IsTrimmed-empty room s e h)
    | inr (name, names, e) ↦ elim (Bool-cases (is_over s)) [
      | inr c ↦ rw (e, trim_to_budget, c) (not_over room s c b h)
      | inl c ↦
          let (m, split) = drop_oldest_lem d room name names s x e w h in
          let (state, go_on) = drop_oldest d name (s, x) in
          elim split [
            | inr (g, f) ↦ rw (e, trim_to_budget, c, g) (inr f)
            | inl (g, (o, f)) ↦
                let kept = drop_oldest-IsIndexed d room name s x h in
                let rest =
                  trim_within n room state.0 state.1 (ground (arith, l, ap length e, ap length o))
                    (omega (arith, m, b)) (omega (arith, f, w)) kept in
                rw (e, trim_to_budget, c, g)
                  (carry s state.0 (trim_to_budget d n state).0 m (drop_oldest-entries name s x) f
                    rest)
          ]
    ]
  ]

  -- The trimming ends within as many rounds as there are entries: the bytes and the entries are then
  -- within their bounds, or exactly one deletion failed and is counted. The index has to agree, and
  -- the count of failures not to wrap around.
  pub trim_to_budget-IsTrimmed :
      (room : ℕ) (s : Spool) (x : W)
      → s.max_bytes < sign_bit
      → s.drop_failures + 1 < modulus
      → IsIndexed room s
      → IsTrimmed s (trim_to_budget d (length s.order) (s, x)).0
  trim_to_budget-IsTrimmed room s x b w h =
      trim_within (length s.order) room s x (omega arith) b w h

  pub trim_to_budget-IsIndexed :
      (room n : ℕ) (s : Spool) (x : W)
      → IsIndexed room s
      → IsIndexed room (trim_to_budget d n (s, x)).0
  unfolding trim_to_budget
  trim_to_budget-IsIndexed room zero s x h = h
  trim_to_budget-IsIndexed room (suc n) s x h = elim (List-cases s.order) [
    | inl e ↦ rw (e, trim_to_budget) h
    | inr (name, names, e) ↦
        let dropped = drop_oldest-IsIndexed d room name s x h in
        let (state, go_on) = drop_oldest d name (s, x) in
        let P : Spool × W → Type 0 = λ r. IsIndexed room r.0 in
        rw (e, trim_to_budget)
          (if_both P (is_over s) (if go_on then trim_to_budget d n state else state) (s, x)
            (if_both P go_on (trim_to_budget d n state) state
              (trim_to_budget-IsIndexed room n state.0 state.1 dropped) dropped)
            h)
  ]
