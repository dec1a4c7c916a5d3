-- ===== src/Spool/Parsing.antt =====
-- `parseName` of internal/spool/spool.go, and that it reads back the names that `nextName` makes.
use mcp_ironclaw.Prelude.{
  length, ap, leb→le, ◌≢◌, append_assoc, inl, sym, All-append, All-mono, Bool-cases, inr, inr, inr,
  inr, inr, inr, ℕ, zero, suc, ◌+◌, ◌-◌, ◌*◌, ◌/◌, ◌%◌, ◌^◌, ◌≤◌, ◌<◌, ◌≡◌, refl, true, false,
  Option, none, some, [], ◌∷◌, ◌++◌, All, arith,
}
use mcp_ironclaw.Go.Int64.{is_negative, modulus, sign_bit}
use mcp_ironclaw.Go.Text.{is_empty_iff, Text, is_empty, Lacks}
use mcp_ironclaw.Go.Parse.{
  non_negative, parse_int, parse_uint, split_at_last, trim_suffix, decimal, is_digit,
  split_at_last-append, trim_suffix-append,
}
use mcp_ironclaw.Spool.Names.{fixed, pad_int, pad_uint, entry_name, extension}
use mcp_ironclaw.Spool.Naming.{length-fixed, Fits, uint64-Fits}

abbrev name_parts : Option ℕ → Option ℕ → Option (ℕ × ℕ)
name_parts none q = none
name_parts (some o) none = none
name_parts (some o) (some q) = some (o, q)

-- The ordinal and the sequence number of a name.
unfoldable pub parse_name : Text → Option (ℕ × ℕ)
parse_name name = elim (split_at_last b'-' (trim_suffix name extension)) [
  | none ↦ none
  | some (front, back) ↦ name_parts (parse_int front) (parse_uint back)
]

decimal-append :
    (n : ℕ) (s : Text) (c m : ℕ)
    → decimal n s ≡ some m
    → is_digit c ≡ true
    → decimal n (s ++ c ∷ []) ≡ some (10 * m + (c - b'0'))
unfolding decimal
decimal-append n [] c m h d = ground arith
decimal-append n (b ∷ s) c m h d = ground (arith, decimal-append (10 * n + (b - b'0')) s c m)

decimal-fixed : (k n : ℕ) → Fits k n → decimal 0 (fixed k n) ≡ some n
unfolding fixed decimal
decimal-fixed zero n h = ground arith
decimal-fixed (suc k) n h = ground (
  arith,
  decimal-append 0 (fixed k (n / 10)) (b'0' + n % 10) (n / 10) (decimal-fixed k (n / 10) h)
      (ground arith),
)

abbrev IsNumeral : Text → Type 0
IsNumeral = All (λ c. b'0' ≤ c)

fixed-IsNumeral : (k n : ℕ) → IsNumeral (fixed k n)
unfolding fixed
fixed-IsNumeral zero n = tt
fixed-IsNumeral (suc k) n =
    All-append (λ c. b'0' ≤ c) (fixed k (n / 10)) ((b'0' + n % 10) ∷ [])
      (fixed-IsNumeral k (n / 10)) (omega arith, tt)

numeral-Lacks : (b : ℕ) (s : Text) → b < b'0' → IsNumeral s → Lacks b s
numeral-Lacks b s l h = All-mono (λ c. b'0' ≤ c) (λ c. c ≢ b) (λ c g e. omega arith) s h

fixed-not_empty : (k n : ℕ) → 0 < k → is_empty (fixed k n) ≡ false
fixed-not_empty k n p = elim (Bool-cases (is_empty (fixed k n))) [
  | inl h ↦ absurd (omega (arith, length-fixed k n, ap length ((is_empty_iff (fixed k n)).0 h)))
  | inr h ↦ h
]

parse_uint-fixed : (k n : ℕ) → 0 < k → Fits k n → n < modulus → parse_uint (fixed k n) ≡ some n
unfolding parse_uint
parse_uint-fixed k n p h b = ground (arith, decimal-fixed k n h, fixed-not_empty k n p)

parse_int-numeral :
    (s : Text) → IsNumeral s → is_empty s ≡ false → parse_int s ≡ non_negative (parse_uint s)
unfolding parse_int is_empty
parse_int-numeral [] h e = cc
parse_int-numeral (c ∷ s) h e = ground (arith, h.0)

small-Fits : (n : ℕ) → n ≤ sign_bit → Fits 19 n
small-Fits n h = omega arith

parse_int-pad_int : (n : ℕ) → n < modulus → parse_int (pad_int n) ≡ some n
unfolding parse_int pad_int
parse_int-pad_int n b = elim (Bool-cases (is_negative n)) [
  | inl h ↦
      let size : sign_bit ≤ n = leb→le sign_bit n h in
      ground (
        arith,
        size,
        parse_uint-fixed 19 (2 ^ 64 - n) (omega arith) (small-Fits (2 ^ 64 - n) (omega arith))
            (omega arith),
      )
  | inr h ↦ ground (
    arith,
    parse_uint-fixed 20 n (omega arith) (uint64-Fits n b) b,
    parse_int-numeral (fixed 20 n) (fixed-IsNumeral 20 n) (fixed-not_empty 20 n (omega arith)),
  )
]

-- A name that `nextName` makes of an ordinal and a sequence number is parsed to these two, for every
-- int64 and every uint64.
pub parse_name-entry_name :
    (ordinal sequence : ℕ)
    → ordinal < modulus
    → sequence < modulus
    → parse_name (entry_name ordinal sequence) ≡ some (ordinal, sequence)
unfolding parse_name entry_name pad_uint trim_suffix
parse_name-entry_name o q ho hq =
    let front = pad_int o ++ b'-' ∷ fixed 20 q in
    let whole : pad_int o ++ b'-' ∷ (fixed 20 q ++ extension) ≡ front ++ extension =
      sym (append_assoc (pad_int o) (b'-' ∷ fixed 20 q) extension) in
    let lacks = numeral-Lacks b'-' (fixed 20 q) (omega arith) (fixed-IsNumeral 20 q) in
    rw
      (
        whole,
        parse_name,
        trim_suffix-append front extension,
        split_at_last-append b'-' (pad_int o) (fixed 20 q) lacks,
        parse_int-pad_int o ho,
        parse_uint-fixed 20 q (omega arith) (uint64-Fits q hq) hq,
      )
      refl
