-- ===== src/Go/Map.antt =====
-- Go's `map`: an association list. The order of its entries stands for the iteration order, which
-- the language leaves open.
pub mod Entries
pub mod Totals
use mcp_ironclaw.Prelude.{
  ℕ, ◌+◌, ◌≤◌, ◌<◌, ◌≡◌, refl, ◌↔◌, Bool, true, Option, none, some, List, [], ◌∷◌, arith, ◌==◌,
  ==_iff, if◌then◌else◌, length,
}
use mcp_ironclaw.Go.Int64.{add64, modulus}
use mcp_ironclaw.Go.Text.{Text, text_eq, text_eq_iff}

pub record Eq {ℓ} (K : Type ℓ) : Type ℓ where
  pub beq : K → K → Bool
  pub beq_iff : (a b : K) → (beq a b ≡ true) ↔ (a ≡ b)

instance abbrev pub nat_eq : Eq ℕ
nat_eq = record { beq = ◌==◌; beq_iff = ==_iff }

instance abbrev pub string_eq : Eq Text
string_eq = record { beq = text_eq; beq_iff = text_eq_iff }

abbrev pub Map {ℓ κ} : Type ℓ → Type κ → Type (ℓ ⊔ κ)
Map K V = List (K × V)

module _ {ℓ κ} {K : Type ℓ} {V : Type κ} ⦃e : Eq K⦄ where
  -- v, ok := m[k]
  unfoldable pub find : K → Map K V → Option V
  find k [] = none
  find k ((j, v) ∷ m) = if e.beq j k then some v else find k m

  -- m[k] = v
  unfoldable pub put : K → V → Map K V → Map K V
  put k v [] = (k, v) ∷ []
  put k v ((j, w) ∷ m) = if e.beq j k then (j, v) ∷ m else (j, w) ∷ put k v m

  -- delete(m, k)
  unfoldable pub remove : K → Map K V → Map K V
  remove k [] = []
  remove k ((j, v) ∷ m) = let rest = remove k m in if e.beq j k then rest else (j, v) ∷ rest

  -- m[k], with the zero value for a missing key
  unfoldable pub get_or : K → Map K V → V → V
  get_or k m zero_value = elim (find k m) [ none ↦ zero_value | some v ↦ v ]

  pub find-put :
      (k j : K) (v : V) (m : Map K V)
      → find j (put k v m) ≡ (if e.beq k j then some v else find j m)
  unfolding find put
  find-put k j v [] = refl
  find-put k j v ((i, w) ∷ m) =
      ground (arith, e.beq_iff i k, e.beq_iff i j, e.beq_iff k j, find-put k j v m)

  pub find-remove :
      (k j : K) (m : Map K V) → find j (remove k m) ≡ (if e.beq k j then none else find j m)
  unfolding find remove
  find-remove k j [] = ground arith
  find-remove k j ((i, w) ∷ m) =
      ground (arith, e.beq_iff i k, e.beq_iff i j, e.beq_iff k j, find-remove k j m)

  pub find-put_self : (k : K) (v : V) (m : Map K V) → find k (put k v m) ≡ some v
  find-put_self k v m = ground (arith, find-put k k v m, e.beq_iff k k)

  pub length-put-le : (k : K) (v : V) (m : Map K V) → length (put k v m) ≤ length m + 1
  unfolding put
  length-put-le k v [] = omega arith
  length-put-le k v ((i, w) ∷ m) = ground (arith, length-put-le k v m)

  pub length-put_new :
      (k : K) (v : V) (m : Map K V) → find k m ≡ none → length (put k v m) ≡ length m + 1
  unfolding find put
  length-put_new k v [] h = omega arith
  length-put_new k v ((i, w) ∷ m) h = ground (arith, length-put_new k v m)

  pub length-put_old :
      (k : K) (v w : V) (m : Map K V) → find k m ≡ some w → length (put k v m) ≡ length m
  unfolding find put
  length-put_old k v w [] h = cc
  length-put_old k v w ((i, u) ∷ m) h = ground (arith, length-put_old k v w m)

  pub length-remove-le : (k : K) (m : Map K V) → length (remove k m) ≤ length m
  unfolding remove
  length-remove-le k [] = omega arith
  length-remove-le k ((i, w) ∷ m) = ground (arith, length-remove-le k m)

  pub length-remove_old :
      (k : K) (v : V) (m : Map K V) → find k m ≡ some v → length (remove k m) + 1 ≤ length m
  unfolding find remove
  length-remove_old k v [] h = cc
  length-remove_old k v ((i, w) ∷ m) h =
      ground (arith, length-remove_old k v m, length-remove-le k m)

  -- No key stands twice.
  unfoldable pub IsUnique : Map K V → Type κ
  IsUnique [] = Unit
  IsUnique ((k, v) ∷ m) = (find k m ≡ none) × IsUnique m

  pub put-IsUnique : (k : K) (v : V) (m : Map K V) → IsUnique m → IsUnique (put k v m)
  unfolding IsUnique find put
  put-IsUnique k v [] u = (refl, tt)
  put-IsUnique k v ((i, w) ∷ m) u =
      ground (arith, put-IsUnique k v m u.1, find-put k i v m, e.beq_iff k i, e.beq_iff i k)

  pub remove-IsUnique : (k : K) (m : Map K V) → IsUnique m → IsUnique (remove k m)
  unfolding IsUnique find remove
  remove-IsUnique k [] u = tt
  remove-IsUnique k ((i, w) ∷ m) u =
      ground (arith, remove-IsUnique k m u.1, find-remove k i m, e.beq_iff k i)

  pub remove_absent : (k : K) (m : Map K V) → find k m ≡ none → remove k m ≡ m
  unfolding find remove
  remove_absent k [] h = refl
  remove_absent k ((i, w) ∷ m) h = ground (arith, remove_absent k m)

  pub length-remove_unique :
      (k : K) (v : V) (m : Map K V)
      → IsUnique m
      → find k m ≡ some v
      → length (remove k m) + 1 ≡ length m
  unfolding IsUnique find remove
  length-remove_unique k v [] u h = cc
  length-remove_unique k v ((i, w) ∷ m) u h =
      ground (arith, length-remove_unique k v m u.1, remove_absent k m, e.beq_iff i k)

  -- The total of a quantity over the values, as an int64.
  unfoldable pub total : (V → ℕ) → Map K V → ℕ
  total f [] = 0
  total f ((k, v) ∷ m) = add64 (f v) (total f m)

  pub total-lt : (f : V → ℕ) (m : Map K V) → total f m < modulus
  unfolding total
  total-lt f [] = omega arith
  total-lt f ((k, v) ∷ m) = omega arith

  pub total-put_new :
      (f : V → ℕ) (k : K) (v : V) (m : Map K V)
      → find k m ≡ none
      → total f (put k v m) ≡ add64 (f v) (total f m)
  unfolding total find put
  total-put_new f k v [] h = refl
  total-put_new f k v ((i, w) ∷ m) h = ground (arith, total-put_new f k v m)

  pub total-put_old :
      (f : V → ℕ) (k : K) (v w : V) (m : Map K V)
      → find k m ≡ some w
      → add64 (f w) (total f (put k v m)) ≡ add64 (f v) (total f m)
  unfolding total find put
  total-put_old f k v w [] h = cc
  total-put_old f k v w ((i, u) ∷ m) h = ground (arith, total-put_old f k v w m)

  pub total-remove :
      (f : V → ℕ) (k : K) (v : V) (m : Map K V)
      → IsUnique m
      → find k m ≡ some v
      → add64 (f v) (total f (remove k m)) ≡ total f m
  unfolding total IsUnique find remove
  total-remove f k v [] u h = cc
  total-remove f k v ((i, w) ∷ m) u h =
      ground (arith, total-remove f k v m u.1, remove_absent k m, e.beq_iff i k)
