-- ===== src/Go/Strconv.antt =====
-- strconv.AppendInt(…, 10): decimal digits, with a sign.
use native.Mathlib.Nat.{pow-suc}
use mcp_ironclaw.Prelude.{
  ℕ, zero, suc, ◌+◌, ◌-◌, ◌*◌, ◌/◌, ◌%◌, ◌^◌, ◌≤◌, ◌<◌, ◌≡◌, refl, ◌≢◌, ap, [], ◌∷◌, ◌++◌, arith,
  ltb, if◌then◌else◌, All, All-append, ◌⊎◌, inl, inr, sym, subst, Bool-cases, true, false, leb→le,
}
use mcp_ironclaw.Go.Int64.{modulus, sign_bit, is_negative}
use mcp_ironclaw.Go.Text.{Text, Lacks}

-- Twenty digits hold any number below 2 ^ 64.
digits_fuel : ℕ → ℕ → Text
digits_fuel zero n = []
digits_fuel (suc f) n =
    let front = digits_fuel f (n / 10) in
    if ltb n 10 then (n + b'0') ∷ [] else front ++ (n % 10 + b'0') ∷ []

unfoldable pub digits : ℕ → Text
unfolding digits_fuel
digits = digits_fuel 20

-- The number that the digits stand for.
value : ℕ → Text → ℕ
value acc [] = acc
value acc (c ∷ s) = value (10 * acc + (c - b'0')) s

value-append :
    (acc : ℕ) (s : Text) (c : ℕ) → value acc (s ++ c ∷ []) ≡ 10 * value acc s + (c - b'0')
unfolding value
value-append acc [] c = refl
value-append acc (d ∷ s) c = value-append (10 * acc + (d - b'0')) s c

value-digits_fuel : (f n : ℕ) → n < 10 ^ f → value 0 (digits_fuel f n) ≡ n
unfolding value digits_fuel
value-digits_fuel zero n h = omega arith
value-digits_fuel (suc f) n h = ground (
  arith,
  value-append 0 (digits_fuel f (n / 10)) (n % 10 + b'0'),
  value-digits_fuel f (n / 10),
  pow-suc 10 f,
)

abbrev IsDigit : ℕ → Type 0
IsDigit c = (b'0' ≤ c) × (c ≤ b'9')

digits_fuel-IsDigit : (f n : ℕ) → All IsDigit (digits_fuel f n)
unfolding digits_fuel
digits_fuel-IsDigit zero n = tt
digits_fuel-IsDigit (suc f) n = ground (
  arith,
  All-append IsDigit (digits_fuel f (n / 10)) ((n % 10 + b'0') ∷ [])
      (digits_fuel-IsDigit f (n / 10)) (omega arith),
)

pub digits-injective : (a b : ℕ) → a < modulus → b < modulus → digits a ≡ digits b → a ≡ b
unfolding digits
digits-injective a b ha hb e =
    omega (arith, value-digits_fuel 20 a, value-digits_fuel 20 b, ap (value 0) e)

-- The text of an int64.
unfoldable pub format_int : ℕ → Text
unfolding digits
format_int n = if is_negative n then b'-' ∷ digits (modulus - n) else digits n

-- Digits hold no other byte.
Lacks-of_digits : (b : ℕ) (s : Text) → b < b'0' → All IsDigit s → Lacks b s
Lacks-of_digits b [] h d = tt
Lacks-of_digits b (c ∷ s) h d = (λ e. omega arith, Lacks-of_digits b s h d.1)

Lacks-of_digits_above : (b : ℕ) (s : Text) → b'9' < b → All IsDigit s → Lacks b s
Lacks-of_digits_above b [] h d = tt
Lacks-of_digits_above b (c ∷ s) h d = (λ e. omega arith, Lacks-of_digits_above b s h d.1)

pub digits-Lacks : (b : ℕ) (n : ℕ) → (b < b'0') ⊎ (b'9' < b) → Lacks b (digits n)
unfolding digits
digits-Lacks b n (inl h) = Lacks-of_digits b _ h (digits_fuel-IsDigit 20 n)
digits-Lacks b n (inr h) = Lacks-of_digits_above b _ h (digits_fuel-IsDigit 20 n)

pub format_int-Lacks : (b : ℕ) (n : ℕ) → b ≢ b'-' → (b < b'0') ⊎ (b'9' < b) → Lacks b (format_int n)
unfolding format_int
format_int-Lacks b n m h = elim (Bool-cases (is_negative n)) [
  | inl neg ↦ rw neg ((λ e. m (sym e)), digits-Lacks b (modulus - n) h)
  | inr nonneg ↦ rw nonneg (digits-Lacks b n h)
]

-- The sign tells the two cases apart.
minus_digits : (m n : ℕ) (s : Text) → b'-' ∷ s ≢ digits n
minus_digits m n s e = (subst (Lacks b'-') (sym e) (digits-Lacks b'-' n (inl (omega arith)))).0 refl

format_int-negative : (n : ℕ) → is_negative n ≡ true → format_int n ≡ b'-' ∷ digits (modulus - n)
unfolding format_int
format_int-negative n h = rw h

format_int-nonnegative : (n : ℕ) → is_negative n ≡ false → format_int n ≡ digits n
unfolding format_int
format_int-nonnegative n h = rw h

both_negative :
    (a b : ℕ)
    → is_negative a ≡ true
    → is_negative b ≡ true
    → a < modulus
    → b < modulus
    → digits (modulus - a) ≡ digits (modulus - b)
    → a ≡ b
both_negative a b na nb ha hb e =
    let pa : sign_bit ≤ a = leb→le sign_bit a na in
    let pb : sign_bit ≤ b = leb→le sign_bit b nb in
    omega (arith, digits-injective (modulus - a) (modulus - b) (omega arith) (omega arith) e)

pub format_int-injective :
    (a b : ℕ) → a < modulus → b < modulus → format_int a ≡ format_int b → a ≡ b
format_int-injective a b ha hb e = elim (Bool-cases (is_negative a)) [
  | inl na ↦ elim (Bool-cases (is_negative b)) [
    | inl nb ↦
        both_negative a b na nb ha hb (cc (e, format_int-negative a na, format_int-negative b nb))
    | inr pb ↦ absurd (
        minus_digits a b (digits (modulus - a))
          (cc (e, format_int-negative a na, format_int-nonnegative b pb)))
  ]
  | inr pa ↦ elim (Bool-cases (is_negative b)) [
    | inl nb ↦ absurd (
        minus_digits b a (digits (modulus - b))
          (cc (e, format_int-nonnegative a pa, format_int-negative b nb)))
    | inr pb ↦
        digits-injective a b ha hb
          (cc (e, format_int-nonnegative a pa, format_int-nonnegative b pb))
  ]
]
