-- ===== src/Go/Map/Totals.antt =====
-- The total over a map depends on what its keys are bound to, not on the order of its entries.
use mcp_ironclaw.Prelude.{◌≡◌, refl, sym, none, some, [], ◌∷◌, ℕ, arith}
use mcp_ironclaw.Go.Map.{
  Eq, Map, find, remove, find-remove, total, total-remove, IsUnique, remove-IsUnique,
}

module _ {ℓ κ} {K : Type ℓ} {V : Type κ} ⦃e : Eq K⦄ where
  find-none-total : (f : V → ℕ) (m : Map K V) → ((k : K) → find k m ≡ none) → total f m ≡ 0
  unfolding find total
  find-none-total f [] h = refl
  find-none-total f ((k, v) ∷ m) h = ground (arith, h k, e.beq_iff k k)

  find-tail :
      (k : K) (v : V) (m n : Map K V) (j : K)
      → find k m ≡ none
      → find j ((k, v) ∷ m) ≡ find j n
      → find j m ≡ find j (remove k n)
  unfolding find
  find-tail k v m n j absent same = ground (arith, find-remove k j n, e.beq_iff k j)

  find_head : (k : K) (v : V) (m : Map K V) → find k ((k, v) ∷ m) ≡ some v
  unfolding find
  find_head k v m = ground (arith, e.beq_iff k k)

  pub total_determined :
      (f : V → ℕ) (m n : Map K V)
      → IsUnique m
      → IsUnique n
      → ((k : K) → find k m ≡ find k n)
      → total f m ≡ total f n
  unfolding IsUnique total find
  total_determined f [] n u v h = sym (find-none-total f n (λ k. sym (h k)))
  total_determined f ((k, x) ∷ m) n u v h =
      let tail =
        total_determined f m (remove k n) u.1 (remove-IsUnique k n v)
          (λ j. find-tail k x m n j u.0 (h j)) in
      ground (arith, total-remove f k x n v, find_head k x m, h k)
