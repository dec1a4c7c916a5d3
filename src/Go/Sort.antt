-- ===== src/Go/Sort.antt =====
-- sort.Slice and its kin: a stable insertion sort, whose result is that of any sort when the keys
-- are distinct.
pub mod Unique
use mathlib.Core.List.{Perm}
use mathlib.Core.List.Perm
use mcp_ironclaw.Prelude.{
  ◌≡◌, refl, inl, inr, Bool, ◌&&◌, ◌||◌, true, false, List, [], ◌∷◌, arith, if◌then◌else◌, All,
  Bool-cases, select,
}
use mcp_ironclaw.Go.Text.{Text, text_lt}
use mcp_ironclaw.Go.Map.{Eq}
use mcp_ironclaw.Go.Map.Entries.{has}

module _ {ℓ} {A : Type ℓ} (less : A → A → Bool) where
  unfoldable pub insert : A → List A → List A
  insert x [] = x ∷ []
  insert x (y ∷ ys) = let rest = insert x ys in if less y x then y ∷ rest else x ∷ y ∷ ys

  unfoldable pub sort_by : List A → List A
  unfolding insert
  sort_by [] = []
  sort_by (x ∷ xs) = insert x (sort_by xs)

  insert-perm : (x : A) (ys : List A) → Perm (insert x ys) (x ∷ ys)
  unfolding insert
  insert-perm x [] = Perm.refl (x ∷ [])
  insert-perm x (y ∷ ys) = elim (Bool-cases (less y x)) [
    | inl h ↦ rw h (Perm.trans (Perm.cons y (insert-perm x ys)) (Perm.swap x y ys))
    | inr h ↦ rw h (Perm.refl (x ∷ y ∷ ys))
  ]

  pub sort_by-perm : (xs : List A) → Perm (sort_by xs) xs
  unfolding sort_by
  sort_by-perm [] = Perm.nil
  sort_by-perm (x ∷ xs) = Perm.trans (insert-perm x (sort_by xs)) (Perm.cons x (sort_by-perm xs))

  -- No entry comes before one that stands above it.
  abbrev pub IsSorted : List A → Type ℓ
  IsSorted [] = Unit
  IsSorted (x ∷ xs) = All (λ y. less y x ≡ false) xs × IsSorted xs

module _ {ℓ κ} {A : Type ℓ} (less : A → A → Bool) (P : A → Type κ) where
  insert-All : (x : A) (ys : List A) → P x → All P ys → All P (insert less x ys)
  unfolding insert
  insert-All x [] px h = (px, tt)
  insert-All x (y ∷ ys) px h = elim (Bool-cases (less y x)) [
    | inl e ↦ rw e (h.0, insert-All x ys px h.1)
    | inr e ↦ rw e (px, h)
  ]

  pub sort_by-All : (xs : List A) → All P xs → All P (sort_by less xs)
  unfolding sort_by
  sort_by-All [] h = tt
  sort_by-All (x ∷ xs) h = insert-All x (sort_by less xs) h.0 (sort_by-All xs h.1)

-- What a sort needs of its test: `less` never holds both ways, and what is not less is transitive.
pub record IsOrder {ℓ} {A : Type ℓ} (less : A → A → Bool) : Type ℓ where
  pub asym : (x y : A) → less x y ≡ true → less y x ≡ false
  pub not_less_trans : (x y z : A) → less y x ≡ false → less z y ≡ false → less z x ≡ false

module _ {ℓ} {A : Type ℓ} (less : A → A → Bool) (order : IsOrder less) where
  not_less-All :
      (x y : A) (zs : List A)
      → less y x ≡ false
      → All (λ z. less z y ≡ false) zs
      → All (λ z. less z x ≡ false) zs
  not_less-All x y [] h a = tt
  not_less-All x y (z ∷ zs) h a = (order.not_less_trans x y z h a.0, not_less-All x y zs h a.1)

  insert-IsSorted : (x : A) (ys : List A) → IsSorted less ys → IsSorted less (insert less x ys)
  unfolding insert
  insert-IsSorted x [] s = (tt, tt)
  insert-IsSorted x (y ∷ ys) s = elim (Bool-cases (less y x)) [
    | inl e ↦ rw e (
      insert-All less (λ z. less z y ≡ false) x ys (order.asym y x e) s.0,
      insert-IsSorted x ys s.1,
    )
    | inr e ↦ rw e ((e, not_less-All x y ys e s.0), s)
  ]

  -- A sort returns its input in order.
  pub sort_by-IsSorted : (xs : List A) → IsSorted less (sort_by less xs)
  unfolding sort_by
  sort_by-IsSorted [] = tt
  sort_by-IsSorted (x ∷ xs) = insert-IsSorted x (sort_by less xs) (sort_by-IsSorted xs)

text_lt-asym : (s t : Text) → text_lt s t ≡ true → text_lt t s ≡ false
unfolding text_lt
text_lt-asym [] [] h = refl
text_lt-asym [] (b ∷ t) h = refl
text_lt-asym (a ∷ s) [] h = cc
text_lt-asym (a ∷ s) (b ∷ t) h = ground (arith, text_lt-asym s t)

text_lt-not_less_trans :
    (s t u : Text) → text_lt t s ≡ false → text_lt u t ≡ false → text_lt u s ≡ false
unfolding text_lt
text_lt-not_less_trans [] t [] h k = refl
text_lt-not_less_trans [] t (c ∷ u) h k = refl
text_lt-not_less_trans (a ∷ s) [] u h k = cc
text_lt-not_less_trans (a ∷ s) (b ∷ t) [] h k = cc
text_lt-not_less_trans (a ∷ s) (b ∷ t) (c ∷ u) h k = ground (arith, text_lt-not_less_trans s t u)

pub text_lt-IsOrder : IsOrder text_lt
text_lt-IsOrder = record { asym = text_lt-asym; not_less_trans = text_lt-not_less_trans }

module _ {ℓ} {K : Type ℓ} ⦃e : Eq K⦄ where
  module _ (less : K → K → Bool) (k : K) where
    has-insert : (x : K) (ys : List K) → has k (insert less x ys) ≡ (e.beq x k || has k ys)
    unfolding has insert
    has-insert x [] = refl
    has-insert x (y ∷ ys) = ground (arith, has-insert x ys)

    pub has-sort_by : (xs : List K) → has k (sort_by less xs) ≡ has k xs
    unfolding has sort_by
    has-sort_by [] = refl
    has-sort_by (x ∷ xs) = ground (arith, has-insert x (sort_by less xs), has-sort_by xs)

  pub has-select : (p : K → Bool) (k : K) (xs : List K) → has k (select p xs) ≡ (p k && has k xs)
  unfolding has select
  has-select p k [] = ground arith
  has-select p k (x ∷ xs) = ground (arith, has-select p k xs, e.beq_iff x k)
