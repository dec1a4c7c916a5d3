-- ===== src/Go/Text.antt =====
-- Go's `string`: its bytes.
use Prim.Native.Char.{code}
use Prim.Native.String.{String}
use mcp_ironclaw.Prelude.{
  ℕ, ◌≡◌, refl, ◌≢◌, ◌↔◌, Bool, true, false, ◌&&◌, ◌||◌, List, [], ◌∷◌, ◌++◌, arith, ltb, ◌==◌, All,
}

abbrev pub Text : Type 0
Text = List ℕ

-- The bytes of an ASCII literal.
abbrev pub codes : String → Text
codes String.[] = []
codes (String.◌∷◌ c s) = code c ∷ codes s

unfoldable pub text_eq : Text → Text → Bool
text_eq [] [] = true
text_eq (a ∷ s) (b ∷ t) = a == b && text_eq s t
text_eq _ _ = false

pub text_eq→eq : (s t : Text) → text_eq s t ≡ true → s ≡ t
unfolding text_eq
text_eq→eq [] [] h = refl
text_eq→eq [] (b ∷ t) h = cc
text_eq→eq (a ∷ s) [] h = cc
text_eq→eq (a ∷ s) (b ∷ t) h = ground (arith, text_eq→eq s t)

pub text_eq_refl : (s : Text) → text_eq s s ≡ true
unfolding text_eq
text_eq_refl [] = refl
text_eq_refl (a ∷ s) = ground (arith, text_eq_refl s)

pub text_eq_iff : (s t : Text) → (text_eq s t ≡ true) ↔ (s ≡ t)
text_eq_iff s t = (text_eq→eq s t, λ e. subst_eq e)
  where
    subst_eq : s ≡ t → text_eq s t ≡ true
    subst_eq e = rw (← e) (text_eq_refl s)

-- s == ""
unfoldable pub is_empty : Text → Bool
is_empty [] = true
is_empty (_ ∷ _) = false

pub is_empty_iff : (s : Text) → (is_empty s ≡ true) ↔ (s ≡ [])
unfolding is_empty
is_empty_iff s = ground arith

-- s < t, byte by byte
unfoldable pub text_lt : Text → Text → Bool
text_lt [] [] = false
text_lt [] (b ∷ t) = true
text_lt (a ∷ s) [] = false
text_lt (a ∷ s) (b ∷ t) = ltb a b || (a == b && text_lt s t)

abbrev pub Lacks : ℕ → Text → Type 0
Lacks b = All (λ c. c ≢ b)

-- The text after the last separator is determined, when it holds no separator.
pub split_last :
    (b : ℕ) (xs ys ds es : Text)
    → Lacks b ds
    → Lacks b es
    → xs ++ b ∷ ds ≡ ys ++ b ∷ es
    → (xs ≡ ys) × (ds ≡ es)
split_last b [] [] ds es hd he e = (refl, cc)
split_last b [] (y ∷ ys) ds es hd he e = absurd (lacks_sep ds ys hd (cc))
  where
    lacks_sep : (ds ys : Text) → Lacks b ds → ds ≡ ys ++ b ∷ es → ⊥
    lacks_sep [] [] h q = cc
    lacks_sep [] (z ∷ zs) h q = cc
    lacks_sep (d ∷ ds) [] h q = h.0 (cc)
    lacks_sep (d ∷ ds) (z ∷ zs) h q = lacks_sep ds zs h.1 (cc)
split_last b (x ∷ xs) [] ds es hd he e = absurd (lacks_sep es xs he (cc))
  where
    lacks_sep : (es xs : Text) → Lacks b es → es ≡ xs ++ b ∷ ds → ⊥
    lacks_sep [] [] h q = cc
    lacks_sep [] (z ∷ zs) h q = cc
    lacks_sep (d ∷ es) [] h q = h.0 (cc)
    lacks_sep (d ∷ es) (z ∷ zs) h q = lacks_sep es zs h.1 (cc)
split_last b (x ∷ xs) (y ∷ ys) ds es hd he e =
    let (p, q) = split_last b xs ys ds es hd he (cc) in (cc, q)

-- So is the text before the first separator.
pub split_first :
    (b : ℕ) (xs ys ds es : Text)
    → Lacks b xs
    → Lacks b ys
    → xs ++ b ∷ ds ≡ ys ++ b ∷ es
    → (xs ≡ ys) × (ds ≡ es)
split_first b [] [] ds es hx hy e = (refl, cc)
split_first b [] (y ∷ ys) ds es hx hy e = absurd (hy.0 (cc))
split_first b (x ∷ xs) [] ds es hx hy e = absurd (hx.0 (cc))
split_first b (x ∷ xs) (y ∷ ys) ds es hx hy e =
    let (p, q) = split_first b xs ys ds es hx.1 hy.1 (cc) in (cc, q)
