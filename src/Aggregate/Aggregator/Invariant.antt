-- ===== src/Aggregate/Aggregator/Invariant.antt =====
-- What holds of an aggregator between two calls: no key stands twice, and each pending emission
-- stands under its identity, with a sequence number that has been used.
use mcp_ironclaw.Prelude.{ℕ, ◌+◌, ◌≤◌, ◌<◌, ◌≡◌, refl, none, some, arith, length}
use mcp_ironclaw.Go.Int64.{modulus}
use mcp_ironclaw.Go.Text.{Text}
use mcp_ironclaw.Go.Map.{find, string_eq, IsUnique, put-IsUnique, remove-IsUnique}
use mcp_ironclaw.Go.Map.Entries.{
  Entries, Entries-put, Entries-remove, Entries-find, Entries-mono, find-none_of_Entries,
}
use mcp_ironclaw.Domain.Key.{AggregateWindow, identity}
use mcp_ironclaw.Domain.Key.Identity.{InRange, identity-injective}
use mcp_ironclaw.Aggregate.WindowKey.{WindowKey, window_key_eq}
use mcp_ironclaw.Aggregate.Aggregator.{
  QuantileSketch, WindowState, Aggregator, emitted, move, cached,
}

abbrev pub HasId : {S : Type 0} → WindowKey → WindowState S → Type 0
HasId k s = k.window_id < modulus

-- An entry of `pending` when the last sequence number used is `n`.
pub record IsNamed (n : ℕ) (i : Text) (w : AggregateWindow) : Type 0 where
  pub name : i ≡ identity w
  pub in_range : InRange w
  pub used : w.sequence ≤ n

IsNamed-mono : (m n : ℕ) → m ≤ n → (i : Text) (w : AggregateWindow) → IsNamed m i w → IsNamed n i w
IsNamed-mono m n h i w v = record { name = v.name; in_range = v.in_range; used = omega arith }

pub record Inv {S : Type 0} (a : Aggregator S) : Type 0 where
  pub windows_unique : IsUnique a.windows
  pub pending_unique : IsUnique a.pending
  pub ids : Entries HasId a.windows
  pub named : Entries (IsNamed a.sequence) a.pending

-- Each open window can still be given a sequence number of its own.
abbrev pub HasRoom : {S : Type 0} → Aggregator S → Type 0
HasRoom a = a.sequence + length a.windows < modulus

module _ (q : QuantileSketch) where
  open q use {Sketch}

  -- A new emission has an identity that is not pending.
  pub emitted-fresh :
      (k : WindowKey) (a : Aggregator Sketch) (s : WindowState Sketch) (p95 p99 largest : ℕ)
      → Inv a
      → k.window_id < modulus
      → a.sequence + 1 < modulus
      → find (identity (emitted q k a s p95 p99 largest)) a.pending ≡ none
  unfolding emitted
  emitted-fresh k a s p95 p99 largest v id room =
      find-none_of_Entries (IsNamed a.sequence) _ a.pending
        (λ w n.
          let (_, _, same) =
            identity-injective (emitted q k a s p95 p99 largest) w
              (record { window_id = id; sequence = omega arith }) n.in_range n.name in
          omega (arith, same, n.used))
        v.named

  pub move-Inv :
      (k : WindowKey) (a : Aggregator Sketch) (s : WindowState Sketch) (p95 p99 largest : ℕ)
      → Inv a
      → k.window_id < modulus
      → a.sequence + 1 < modulus
      → Inv (move q k a (emitted q k a s p95 p99 largest))
  unfolding move emitted
  move-Inv k a s p95 p99 largest v id room = record {
    windows_unique = remove-IsUnique k a.windows v.windows_unique;
    pending_unique = put-IsUnique _ _ a.pending v.pending_unique;
    ids = Entries-remove HasId k a.windows v.ids;
    named =
        Entries-put _ _ _ a.pending
          (record {
            name = refl;
            in_range = record { window_id = id; sequence = omega arith };
            used = omega arith;
          })
          (Entries-mono _ _ (IsNamed-mono a.sequence _ (omega arith)) a.pending v.named);
  }

  pub cached-Inv :
      (k : WindowKey) (a : Aggregator Sketch) (s : WindowState Sketch) (sketch : Sketch)
      → find k a.windows ≡ some s
      → Inv a
      → Inv (cached q k a s sketch)
  unfolding cached
  cached-Inv k a s sketch e v = record {
    windows_unique = put-IsUnique k _ a.windows v.windows_unique;
    pending_unique = v.pending_unique;
    ids = Entries-put HasId k _ a.windows (Entries-find HasId k s a.windows e v.ids) v.ids;
    named = v.named;
  }
