-- ===== src/Aggregate/Aggregator/Windows.antt =====
-- Which windows a collection closes, and which instants a window holds.
use native.Mathlib.Nat.{div-add-mod, mod-lt}
use mcp_ironclaw.Prelude.{
  ℕ, ◌+◌, ◌-◌, ◌≤◌, ◌<◌, ◌≡◌, refl, inl, inr, Bool, none, arith, if◌then◌else◌, List, [], ◌∷◌, ◌++◌,
  select, subst,
}
use mcp_ironclaw.Go.Int64.{mul64, sign_bit}
use mcp_ironclaw.Go.Time
use mcp_ironclaw.Go.Time.{epoch}
use mcp_ironclaw.Go.Sort.{has-sort_by, has-select}
use mcp_ironclaw.Go.Map.{find, find-remove, string_eq}
use mcp_ironclaw.Go.Map.Entries.{keys, has, find-none_of_keys}
use mcp_ironclaw.Domain.Errors.{Result, ok, err, Result-cases}
use mcp_ironclaw.Domain.Key.{AggregateWindow}
use mcp_ironclaw.Aggregate.WindowKey.{WindowKey, window_key_eq, before, same_key}
use mcp_ironclaw.Aggregate.Aggregator.{
  QuantileSketch, Aggregator, Config, window_id, close_one, close_all, collect, selected, retained,
  move, emitted,
}
use mcp_ironclaw.Aggregate.Aggregator.Cases.{close_one_cases}

-- For a positive window size and a time from 1970 on, the window that `WindowID` names starts at or
-- before that time, and the time is before its end.
pub window_contains :
    (c : Config) (at : ℕ)
    → 0 < c.window_size
    → c.window_size < sign_bit
    → epoch ≤ at
    → at < epoch + sign_bit
    → let start = Time.unix (mul64 (window_id c at) c.window_size) in
      (start ≤ at) × (at < Time.add start c.window_size)
unfolding window_id
window_contains c at pos small lo hi =
    ground (arith, div-add-mod (at - epoch) c.window_size, mod-lt (at - epoch) pos)

module _ (q : QuantileSketch) where
  open q use {Sketch}

  move-windows :
      (k j : WindowKey) (a : Aggregator Sketch) (w : AggregateWindow)
      → find j (move q k a w).windows ≡ (if same_key k j then none else find j a.windows)
  unfolding move
  move-windows k j a w = find-remove k j a.windows

  -- After a success the listed keys are no longer open, and every other key is as it was.
  abbrev Closes {ℓ} :
      {R : Type ℓ} → List WindowKey → Aggregator Sketch → Aggregator Sketch → Result R → Type 0
  Closes ks a b (ok w) =
      (j : WindowKey) → find j b.windows ≡ (if has j ks then none else find j a.windows)
  Closes ks a b (err x) = Unit

  close_one-Closes :
      (k : WindowKey) (a : Aggregator Sketch)
      → Closes (k ∷ []) a (close_one q k a).0 (close_one q k a).1
  unfolding has
  close_one-Closes k a =
      close_one_cases q (λ p. Closes (k ∷ []) a p.0 p.1) k a (λ _. tt) (λ s sketch x e. tt)
        (λ s p95 p99 largest e j.
          ground (arith, move-windows k j a (emitted q k a s p95 p99 largest)))

  Closes-trans {ℓ κ} :
      {R : Type ℓ} {S : Type κ} (k : WindowKey) (ks : List WindowKey) (a b c : Aggregator Sketch)
      (x : R) (r : Result S)
      → Closes (k ∷ []) a b (ok x)
      → Closes ks b c r
      → Closes (k ∷ ks) a c r
  unfolding has
  Closes-trans k ks a b c x (ok w) one rest = λ j. ground (arith, one j, rest j)
  Closes-trans k ks a b c x (err e) one rest = tt

  close_all-Closes :
      (ks : List WindowKey) (out : List AggregateWindow) (a : Aggregator Sketch)
      → Closes ks a (close_all q ks out a).0 (close_all q ks out a).1
  unfolding close_all has
  close_all-Closes [] out a = λ j. refl
  close_all-Closes (k ∷ ks) out a =
      let (b, res) = close_one q k a in
      elim (Result-cases res) [
        | inl (x, e) ↦ rw (e, close_all) tt
        | inr (w, e) ↦
            let one : Closes (k ∷ []) a b (ok w) =
              subst (Closes (k ∷ []) a b) e (close_one-Closes k a) in
            rw (e, close_all)
              (let (c, r) = close_all q ks (out ++ w ∷ []) b in
                Closes-trans k ks a b c w r one (close_all-Closes ks (out ++ w ∷ []) b))
      ]

  -- A `collect` that succeeds closes the open windows that it includes, and leaves every other as it
  -- was.
  pub collect-closes :
      (include : WindowKey → Bool) (a : Aggregator Sketch) (ws : List AggregateWindow)
      → (collect q include a).1 ≡ ok ws
      → (j : WindowKey)
      → find j (collect q include a).0.windows ≡ (if include j then none else find j a.windows)
  unfolding collect selected
  collect-closes include a ws h j =
      let closes =
        subst (Closes (selected q include a) a (collect q include a).0) h
          (close_all-Closes (selected q include a) (retained q a) a) in
      ground (
        arith,
        closes j,
        has-sort_by before j (select include (keys a.windows)),
        has-select include j (keys a.windows),
        find-none_of_keys j a.windows,
      )
