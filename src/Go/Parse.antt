-- ===== src/Go/Parse.antt =====
-- strconv.ParseUint and strconv.ParseInt of decimal texts, and what path/filepath and strings do to
-- split a text.
use mcp_ironclaw.Prelude.{
  inl, inr, length, ap, length-append, inl, Bool-cases, ℕ, ◌+◌, ◌-◌, ◌*◌, ◌≡◌, refl, Bool, false,
  ◌&&◌, Option, none, some, [], ◌∷◌, ◌++◌, leb, ltb, ◌==◌, if◌then◌else◌, arith,
}
use mcp_ironclaw.Go.Int64.{modulus, sign_bit, neg64}
use mcp_ironclaw.Go.Text.{text_eq→eq, text_eq_refl, Text, text_eq, is_empty, Lacks}

abbrev pub is_digit : ℕ → Bool
is_digit c = leb b'0' c && leb c b'9'

-- The number that digits stand for, after those that stand for `n`.
unfoldable pub decimal : ℕ → Text → Option ℕ
decimal n [] = some n
decimal n (c ∷ s) = let rest = decimal (10 * n + (c - b'0')) s in if is_digit c then rest else none

-- strconv.ParseUint(s, 10, 64)
unfoldable pub parse_uint : Text → Option ℕ
unfolding decimal
parse_uint s =
    if is_empty s
    then none
    else elim (decimal 0 s) [ none ↦ none | some n ↦ if ltb n modulus then some n else none ]

abbrev pub non_negative : Option ℕ → Option ℕ
non_negative none = none
non_negative (some n) = if ltb n sign_bit then some n else none

abbrev pub negative : Option ℕ → Option ℕ
negative none = none
negative (some n) = if leb n sign_bit then some (neg64 n) else none

-- strconv.ParseInt(s, 10, 64)
unfoldable pub parse_int : Text → Option ℕ
parse_int [] = none
parse_int (c ∷ s) =
    if c == b'-'
    then negative (parse_uint s)
    else if c == b'+'
    then non_negative (parse_uint s)
    else non_negative (parse_uint (c ∷ s))

-- The texts before and after the last byte of this value.
unfoldable pub split_at_last : ℕ → Text → Option (Text × Text)
split_at_last b [] = none
split_at_last b (c ∷ s) = elim (split_at_last b s) [
  | some (p, q) ↦ some (c ∷ p, q)
  | none ↦ if c == b then some ([], s) else none
]

-- The text before a suffix.
unfoldable pub before_suffix : Text → Text → Option Text
before_suffix suffix [] = if is_empty suffix then some [] else none
before_suffix suffix (c ∷ s) =
    let rest = before_suffix suffix s in
    if text_eq (c ∷ s) suffix then some [] else elim rest [ none ↦ none | some p ↦ some (c ∷ p) ]

-- strings.TrimSuffix
unfoldable pub trim_suffix : Text → Text → Text
trim_suffix s suffix = elim (before_suffix suffix s) [ none ↦ s | some p ↦ p ]

-- filepath.Ext of a name that has no slash
unfoldable pub extension_of : Text → Text
extension_of name = elim (split_at_last b'.' name) [ none ↦ [] | some (p, q) ↦ b'.' ∷ q ]

split_at_last-none : (b : ℕ) (s : Text) → Lacks b s → split_at_last b s ≡ none
unfolding split_at_last
split_at_last-none b [] h = refl
split_at_last-none b (c ∷ s) h = ground (arith, split_at_last-none b s h.1, h.0)

pub split_at_last-append :
    (b : ℕ) (p q : Text) → Lacks b q → split_at_last b (p ++ b ∷ q) ≡ some (p, q)
unfolding split_at_last
split_at_last-append b [] q h = ground (arith, split_at_last-none b q h)
split_at_last-append b (c ∷ p) q h = ground (arith, split_at_last-append b p q h)

longer : (c : ℕ) (s suffix : Text) → text_eq (c ∷ (s ++ suffix)) suffix ≡ false
longer c s suffix = elim (Bool-cases (text_eq (c ∷ (s ++ suffix)) suffix)) [
  | inl h ↦ absurd (omega (arith, length-append s suffix, ap length (text_eq→eq _ suffix h)))
  | inr h ↦ h
]

before_suffix_self : (suffix : Text) → before_suffix suffix suffix ≡ some []
unfolding before_suffix is_empty
before_suffix_self [] = refl
before_suffix_self (c ∷ s) = ground (arith, text_eq_refl (c ∷ s))

before_suffix-append : (suffix p : Text) → before_suffix suffix (p ++ suffix) ≡ some p
unfolding before_suffix
before_suffix-append suffix [] = before_suffix_self suffix
before_suffix-append suffix (c ∷ p) =
    ground (arith, before_suffix-append suffix p, longer c p suffix)

pub trim_suffix-append : (p suffix : Text) → trim_suffix (p ++ suffix) suffix ≡ p
unfolding trim_suffix
trim_suffix-append p suffix = rw (trim_suffix, before_suffix-append suffix p) refl
