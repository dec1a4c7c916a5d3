-- ===== src/Aggregate/Aggregator/TwoPhase.antt =====
-- The two phases of an emission: `collect` returns every window that waits for its publication, and
-- keeps it pending until `Commit` names it.
use mathlib.Core.List.{Perm}
use mathlib.Core.List.Perm
use mcp_ironclaw.Prelude.{
  ◌≡◌, refl, inl, inr, Bool, false, none, arith, List, [], ◌∷◌, ◌++◌, if◌then◌else◌, subst, ◌||◌,
}
use mcp_ironclaw.Go.Text.{Text, text_eq}
use mcp_ironclaw.Go.Sort.{sort_by-perm}
use mcp_ironclaw.Go.Map.{Map, find, string_eq, remove, find-remove}
use mcp_ironclaw.Go.Map.Entries.{values, values-put_new, Entries-find}
use mcp_ironclaw.Domain.Errors.{Result, ok, err, Result-cases}
use mcp_ironclaw.Domain.Key.{AggregateWindow, identity}
use mcp_ironclaw.Aggregate.WindowKey.{WindowKey, window_key_eq}
use mcp_ironclaw.Aggregate.Aggregator.{
  QuantileSketch, Aggregator, close_one, close_all, collect, selected, retained, forget, commit,
  move,
}
use mcp_ironclaw.Aggregate.Aggregator.Cases.{close_one_cases}
use mcp_ironclaw.Aggregate.Aggregator.Invariant.{HasId, HasRoom, Inv, emitted-fresh}
use mcp_ironclaw.Aggregate.Aggregator.Preservation.{Ready, one_left, close_one-Ready}

module _ (q : QuantileSketch) where
  open q use {Sketch}

  move-pending :
      (k : WindowKey) (a : Aggregator Sketch) (w : AggregateWindow)
      → find (identity w) a.pending ≡ none
      → values (move q k a w).pending ≡ values a.pending ++ w ∷ []
  unfolding move
  move-pending k a w e = values-put_new (identity w) w a.pending e

  -- A round that succeeds appends its window to the pending ones.
  abbrev Appends : Aggregator Sketch → Aggregator Sketch → Result AggregateWindow → Type 0
  Appends a b (ok w) = values b.pending ≡ values a.pending ++ w ∷ []
  Appends a b (err x) = Unit

  close_one-Appends :
      (k : WindowKey) (a : Aggregator Sketch)
      → Ready q a
      → Appends a (close_one q k a).0 (close_one q k a).1
  close_one-Appends k a (v, room) =
      close_one_cases q (λ p. Appends a p.0 p.1) k a (λ _. tt) (λ s sketch x e. tt)
        (λ s p95 p99 largest e. move-pending k a _ (
          emitted-fresh q k a s p95 p99 largest v (Entries-find HasId k s a.windows e v.ids)
            (one_left q k a s e room)))

  -- A loop that succeeds returns the pending windows in some order.
  abbrev Returns : Aggregator Sketch → Result (List AggregateWindow) → Type 0
  Returns b (ok ws) = Perm ws (values b.pending)
  Returns b (err x) = Unit

  close_all-Returns :
      (ks : List WindowKey) (out : List AggregateWindow) (a : Aggregator Sketch)
      → Ready q a
      → Perm out (values a.pending)
      → Returns (close_all q ks out a).0 (close_all q ks out a).1
  unfolding close_all
  close_all-Returns [] out a r p = p
  close_all-Returns (k ∷ ks) out a r p =
      let (b, res) = close_one q k a in
      elim (Result-cases res) [
        | inl (x, e) ↦ rw (e, close_all) tt
        | inr (w, e) ↦
            let appended : Appends a b (ok w) = subst (Appends a b) e (close_one-Appends k a r) in
            rw (e, close_all)
              (close_all-Returns ks (out ++ w ∷ []) b (close_one-Ready q k a r)
                (rw appended (Perm.append p (Perm.refl (w ∷ [])))))
      ]

  -- A `collect` that succeeds returns exactly the windows that are pending after it, each as often
  -- as it is pending, in some order.
  pub collect-returns_pending :
      (include : WindowKey → Bool) (a : Aggregator Sketch) (ws : List AggregateWindow)
      → Inv a
      → HasRoom a
      → (collect q include a).1 ≡ ok ws
      → Perm ws (values (collect q include a).0.pending)
  unfolding collect retained
  collect-returns_pending include a ws v room h =
      subst (Returns (collect q include a).0) h
        (close_all-Returns (selected q include a) _ a (v, room) (sort_by-perm _ (values a.pending)))

abbrev pub named_in : Text → List AggregateWindow → Bool
named_in i [] = false
named_in i (w ∷ ws) = text_eq (identity w) i || named_in i ws

find-forget :
    (ws : List AggregateWindow) (i : Text) (m : Map Text AggregateWindow)
    → find i (forget ws m) ≡ (if named_in i ws then none else find i m)
unfolding forget
find-forget [] i m = refl
find-forget (w ∷ ws) i m =
    ground (arith, find-forget ws i (remove (identity w) m), find-remove (identity w) i m)

-- `Commit` forgets the emissions that it is given and no other: what was not published stays
-- pending, unchanged.
pub find-commit :
    {S : Type 0} (ws : List AggregateWindow) (a : Aggregator S) (i : Text)
    → find i (commit ws a).pending ≡ (if named_in i ws then none else find i a.pending)
unfolding commit
find-commit ws a i = find-forget ws i a.pending
