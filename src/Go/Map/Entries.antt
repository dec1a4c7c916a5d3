-- ===== src/Go/Map/Entries.antt =====
-- The values of a map, and predicates on its entries.
use mcp_ironclaw.Prelude.{
  length, ap, suc, Bool, false, ◌||◌, ◌≡◌, refl, none, some, List, [], ◌∷◌, ◌++◌, arith,
}
use mcp_ironclaw.Go.Map.{Eq, Map, find, put, remove}

abbrev pub values {ℓ κ} : {K : Type ℓ} {V : Type κ} → Map K V → List V
values [] = []
values ((k, v) ∷ m) = v ∷ values m

abbrev pub keys {ℓ κ} : {K : Type ℓ} {V : Type κ} → Map K V → List K
keys [] = []
keys ((k, v) ∷ m) = k ∷ keys m

-- Whether a list holds a key.
unfoldable pub has {ℓ} : {K : Type ℓ} ⦃e : Eq K⦄ → K → List K → Bool
has k [] = false
has ⦃e⦄ k (j ∷ js) = e.beq j k || has k js

module _ {ℓ κ} {K : Type ℓ} {V : Type κ} ⦃e : Eq K⦄ where
  pub values-put_new :
      (k : K) (v : V) (m : Map K V) → find k m ≡ none → values (put k v m) ≡ values m ++ v ∷ []
  unfolding find put
  values-put_new k v [] h = refl
  values-put_new k v ((i, w) ∷ m) h = ground (arith, values-put_new k v m)

module _ {ℓ κ μ} {K : Type ℓ} {V : Type κ} (P : K → V → Type μ) where
  -- Every entry satisfies a predicate.
  abbrev pub Entries : Map K V → Type μ
  Entries [] = Unit
  Entries ((k, v) ∷ m) = P k v × Entries m

module _ {ℓ κ μ} {K : Type ℓ} {V : Type κ} ⦃e : Eq K⦄ (P : K → V → Type μ) where
  pub Entries-put : (k : K) (v : V) (m : Map K V) → P k v → Entries P m → Entries P (put k v m)
  unfolding put
  Entries-put k v [] p a = (p, tt)
  Entries-put k v ((i, w) ∷ m) p a = ground (arith, Entries-put k v m p a.1, e.beq_iff i k)

  pub Entries-remove : (k : K) (m : Map K V) → Entries P m → Entries P (remove k m)
  unfolding remove
  Entries-remove k [] a = tt
  Entries-remove k ((i, w) ∷ m) a = ground (arith, Entries-remove k m a.1)

  pub Entries-find : (k : K) (v : V) (m : Map K V) → find k m ≡ some v → Entries P m → P k v
  unfolding find
  Entries-find k v [] h a = cc
  Entries-find k v ((i, w) ∷ m) h a = ground (arith, Entries-find k v m, e.beq_iff i k)

  -- A key that no entry can have is not found.
  pub find-none_of_Entries :
      (k : K) (m : Map K V) → ((v : V) → P k v → ⊥) → Entries P m → find k m ≡ none
  unfolding find
  find-none_of_Entries k [] h a = refl
  find-none_of_Entries k ((i, w) ∷ m) h a =
      ground (arith, find-none_of_Entries k m h a.1, e.beq_iff i k, h w)

module _ {ℓ κ μ ν} {K : Type ℓ} {V : Type κ} (P : K → V → Type μ) (Q : K → V → Type ν) where
  pub Entries-mono : ((k : K) (v : V) → P k v → Q k v) → (m : Map K V) → Entries P m → Entries Q m
  Entries-mono f [] a = tt
  Entries-mono f ((k, v) ∷ m) a = (f k v a.0, Entries-mono f m a.1)

module _ {ℓ κ} {K : Type ℓ} {V : Type κ} ⦃e : Eq K⦄ where
  pub find-none_of_keys : (k : K) (m : Map K V) → has k (keys m) ≡ false → find k m ≡ none
  unfolding find has
  find-none_of_keys k [] h = refl
  find-none_of_keys k ((i, w) ∷ m) h = ground (arith, find-none_of_keys k m)

  pub length-keys : (m : Map K V) → length (keys m) ≡ length m
  length-keys [] = refl
  length-keys ((k, v) ∷ m) = ap suc (length-keys m)
