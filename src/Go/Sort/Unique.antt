-- ===== src/Go/Sort/Unique.antt =====
-- What sort.Slice returns is determined, when its input can stand in a strict order.
use mathlib.Core.Bool.{Bool-set}
use mathlib.Core.List.{Perm, foldr}
use mathlib.Core.List.Perm
use mcp_ironclaw.Prelude.{
  ◌≡◌, refl, sym, subst, ◌∙◌, Bool, ◌&&◌, true, false, not, List, [], ◌∷◌, arith, All, Bool-cases,
  inl, inr, All-mono,
}
use mcp_ironclaw.Go.Sort.{sort_by, sort_by-perm, sort_by-IsSorted, IsSorted, IsOrder}

module _ {ℓ} {A : Type ℓ} (p : A → Bool) where
  abbrev and_also : A → Bool → Bool
  and_also x r = p x && r

  every-perm : {xs ys : List A} → Perm xs ys → foldr and_also true xs ≡ foldr and_also true ys
  every-perm h = Perm.foldr-eq Bool-set and_also (λ a b x. ground arith) h true

  every→All : (xs : List A) → foldr and_also true xs ≡ true → All (λ x. p x ≡ true) xs
  every→All [] h = tt
  every→All (x ∷ xs) h = (ground arith, every→All xs (ground arith))

  All→every : (xs : List A) → All (λ x. p x ≡ true) xs → foldr and_also true xs ≡ true
  All→every [] h = refl
  All→every (x ∷ xs) h = ground (arith, h.0, All→every xs h.1)

  All-perm : (xs ys : List A) → Perm xs ys → All (λ x. p x ≡ true) xs → All (λ x. p x ≡ true) ys
  All-perm xs ys h a = every→All ys (sym (every-perm h) ∙ All→every xs a)

not_equal : true ≡ false → ⊥
not_equal h = cc

-- Each entry stands below all that follow it.
module _ {ℓ} {A : Type ℓ} (less : A → A → Bool) where
  abbrev pub IsStrict : List A → Type ℓ
  IsStrict [] = Unit
  IsStrict (x ∷ xs) = All (λ y. less x y ≡ true) xs × IsStrict xs

module _ {ℓ} {A : Type ℓ} (less : A → A → Bool) (order : IsOrder less) (p : A → Bool)
    (same : (x y : A) → p x ≡ true → p y ≡ true → less x y ≡ false → less y x ≡ false → x ≡ y) where
  abbrev not_below : A → A → Bool
  not_below y x = not (less x y)

  irrefl : (x : A) → less x x ≡ false
  irrefl x = elim (Bool-cases (less x x)) [ inl h ↦ order.asym x x h | inr h ↦ h ]

  unique :
      (xs ys : List A)
      → Perm xs ys
      → IsSorted less xs
      → IsStrict less ys
      → All (λ x. p x ≡ true) ys
      → xs ≡ ys
  unique [] [] h s t a = refl
  unique [] (y ∷ ys) h s t a = absurd (not_equal (every-perm (λ x. false) h))
  unique (x ∷ xs) [] h s t a = absurd (not_equal (sym (every-perm (λ x. false) h)))
  unique (x ∷ xs) (y ∷ ys) h s t a =
      let above : All (λ z. not_below y z ≡ true) (y ∷ ys) = (
        ground (arith, irrefl y),
        All-mono (λ z. less y z ≡ true) (λ z. not_below y z ≡ true)
            (λ z l. ground (arith, order.asym y z l)) ys t.0,
      ) in
      let low = All-perm (not_below y) (y ∷ ys) (x ∷ xs) (Perm.symm h) above in
      let above : All (λ z. not_below x z ≡ true) (x ∷ xs) = (
        ground (arith, irrefl x),
        All-mono (λ z. less z x ≡ false) (λ z. not_below x z ≡ true) (λ z l. ground (arith, l)) xs
            s.0,
      ) in
      let high = All-perm (not_below x) (x ∷ xs) (y ∷ ys) h above in
      let is = All-perm p (y ∷ ys) (x ∷ xs) (Perm.symm h) a in
      let e : x ≡ y = same x y is.0 a.0 (ground (arith, low.0)) (ground (arith, high.0)) in
      let rest =
        unique xs ys (Perm.cons_inv (subst (λ z. Perm (z ∷ xs) (y ∷ ys)) e h)) s.1 t.1 a.1 in
      cc (e, rest)

  -- A sort puts the entries into their strict order, in whatever order it is given them.
  pub sort_by_unique :
      (xs ys : List A)
      → Perm xs ys
      → IsStrict less ys
      → All (λ x. p x ≡ true) ys
      → sort_by less xs ≡ ys
  sort_by_unique xs ys h t a =
      unique (sort_by less xs) ys (Perm.trans (sort_by-perm less xs) h)
        (sort_by-IsSorted less order xs) t a
