-- ===== src/Go/Int64.antt =====
-- Go's `int64`: a value is its bit pattern, a number below 2 ^ 64. Additions wrap; comparisons read
-- the pattern as a signed number.
use mcp_ironclaw.Prelude.{
  ◌==◌, ℕ, ◌+◌, ◌-◌, ◌*◌, ◌/◌, ◌%◌, ◌^◌, ◌<◌, ◌≡◌, Bool, List, [], ◌∷◌, ◌++◌, arith, ltb, leb,
  if◌then◌else◌,
}

abbrev pub modulus : ℕ
modulus = 2 ^ 64

abbrev pub sign_bit : ℕ
sign_bit = 2 ^ 63

abbrev pub add64 : ℕ → ℕ → ℕ
add64 a b = (a + b) % modulus

abbrev pub neg64 : ℕ → ℕ
neg64 a = (modulus - a) % modulus

abbrev pub sub64 : ℕ → ℕ → ℕ
sub64 a b = (a + modulus - b) % modulus

-- a < 0
abbrev pub is_negative : ℕ → Bool
is_negative a = leb sign_bit a

-- A signed comparison is one of the patterns shifted by half the range.
abbrev pub bias : ℕ → ℕ
bias a = (a + sign_bit) % modulus

abbrev pub slt : ℕ → ℕ → Bool
slt a b = ltb (bias a) (bias b)

-- a == b, of the values that the comparisons read.
abbrev pub eq64 : ℕ → ℕ → Bool
eq64 a b = bias a == bias b

-- a > 0
abbrev pub is_positive : ℕ → Bool
is_positive a = slt 0 a

-- `a / b` for a positive `b`: Go truncates towards zero.
abbrev pub div64 : ℕ → ℕ → ℕ
div64 a b = if is_negative a then neg64 ((modulus - a) / b) else a / b

abbrev pub mul64 : ℕ → ℕ → ℕ
mul64 a b = (a * b) % modulus

-- The running total of a list, as repeated `+=` on an int64.
unfoldable pub sum64 : List ℕ → ℕ
sum64 [] = 0
sum64 (x ∷ xs) = add64 x (sum64 xs)

pub sum64-lt : (xs : List ℕ) → sum64 xs < modulus
unfolding sum64
sum64-lt [] = omega arith
sum64-lt (x ∷ xs) = omega arith

pub sum64-append : (xs ys : List ℕ) → sum64 (xs ++ ys) ≡ add64 (sum64 xs) (sum64 ys)
unfolding sum64
sum64-append [] ys = omega (arith, sum64-lt ys)
sum64-append (x ∷ xs) ys = omega (arith, sum64-append xs ys)
