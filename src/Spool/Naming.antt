-- ===== src/Spool/Naming.antt =====
-- `nextName` of internal/spool/spool.go: its loop ends, with a name that no entry has.
use mcp_ironclaw.Prelude.{
  ℕ, zero, suc, ◌+◌, ◌/◌, ◌%◌, ◌^◌, ◌≤◌, ◌<◌, ◌≡◌, refl, sym, ◌∙◌, none, [], ◌∷◌, ◌++◌, arith,
  length, length-append, Option-cases, inl, inr,
}
use mcp_ironclaw.Go.Int64.{add64, modulus}
use mcp_ironclaw.Go.Text.{Text, text_eq_iff}
use mcp_ironclaw.Go.Map.{Map, find, remove, find-remove, string_eq, length-remove_old}
use mcp_ironclaw.Spool.Names.{fixed, pad_int, pad_uint, entry_name, extension}
use mcp_ironclaw.Spool.{Spool, next_seq, next_name}

pub length-fixed : (k n : ℕ) → length (fixed k n) ≡ k
unfolding fixed
length-fixed zero n = refl
length-fixed (suc k) n =
    omega (arith, length-append (fixed k (n / 10)) ((b'0' + n % 10) ∷ []), length-fixed k (n / 10))

append-injective :
    (xs ys zs ws : Text) → length xs ≡ length ys → xs ++ zs ≡ ys ++ ws → (xs ≡ ys) × (zs ≡ ws)
append-injective [] [] zs ws h e = (refl, e)
append-injective [] (y ∷ ys) zs ws h e = absurd (omega arith)
append-injective (x ∷ xs) [] zs ws h e = absurd (omega arith)
append-injective (x ∷ xs) (y ∷ ys) zs ws h e =
    let (p, q) = append-injective xs ys zs ws (omega arith) (cc) in (cc, q)

-- A number with at most so many digits.
abbrev pub Fits : ℕ → ℕ → Type 0
Fits zero n = n ≡ 0
Fits (suc k) n = Fits k (n / 10)

fixed-injective : (k a b : ℕ) → Fits k a → Fits k b → fixed k a ≡ fixed k b → a ≡ b
unfolding fixed
fixed-injective zero a b h g e = omega arith
fixed-injective (suc k) a b h g e =
    let (p, q) =
      append-injective (fixed k (a / 10)) (fixed k (b / 10)) _ _
        (length-fixed k (a / 10) ∙ sym (length-fixed k (b / 10))) e in
    let tens = fixed-injective k (a / 10) (b / 10) h g p in
    let ones : b'0' + a % 10 ≡ b'0' + b % 10 = cc in omega (arith, tens, ones)

pub uint64-Fits : (n : ℕ) → n < 2 ^ 64 → Fits 20 n
uint64-Fits n h = omega arith

pub entry_name-injective :
    (ordinal a b : ℕ)
    → a < 2 ^ 64
    → b < 2 ^ 64
    → entry_name ordinal a ≡ entry_name ordinal b
    → a ≡ b
unfolding entry_name pad_uint
entry_name-injective ordinal a b h g e =
    let (_, q) = append-injective (pad_int ordinal) (pad_int ordinal) _ _ refl e in
    let (p, _) =
      append-injective (fixed 20 a) (fixed 20 b) extension extension
        (length-fixed 20 a ∙ sym (length-fixed 20 b)) (cc) in
    fixed-injective 20 a b (uint64-Fits a h) (uint64-Fits b g) p

next_seq-bounds :
    (n ordinal seq : ℕ) (sizes : Map Text ℕ)
    → seq + n + 1 < modulus
    → (seq + 1 ≤ next_seq n ordinal seq sizes) × (next_seq n ordinal seq sizes ≤ seq + n + 1)
unfolding next_seq
next_seq-bounds zero ordinal seq sizes room = omega arith
next_seq-bounds (suc n) ordinal seq sizes room =
    ground (arith, next_seq-bounds n ordinal (add64 seq 1) sizes)

-- An entry with an earlier sequence number has no part in the search.
next_seq-remove :
    (n ordinal seq r : ℕ) (sizes : Map Text ℕ)
    → r ≤ seq
    → seq + n + 1 < modulus
    → next_seq n ordinal seq (remove (entry_name ordinal r) sizes) ≡ next_seq n ordinal seq sizes
unfolding next_seq
next_seq-remove zero ordinal seq r sizes h room = refl
next_seq-remove (suc n) ordinal seq r sizes h room =
    let next = add64 seq 1 in
    ground (
      arith,
      next_seq-remove n ordinal next r sizes,
      find-remove (entry_name ordinal r) (entry_name ordinal next) sizes,
      text_eq_iff (entry_name ordinal r) (entry_name ordinal next),
      entry_name-injective ordinal r next,
    )

-- The loop of `nextName` looks at more names than there are entries, so that one of them is free.
next_seq-fresh :
    (n ordinal seq : ℕ) (sizes : Map Text ℕ)
    → length sizes ≤ n
    → seq + n + 1 < modulus
    → find (entry_name ordinal (next_seq n ordinal seq sizes)) sizes ≡ none
unfolding next_seq find
next_seq-fresh zero ordinal seq [] h room = refl
next_seq-fresh zero ordinal seq (x ∷ sizes) h room = absurd (omega arith)
next_seq-fresh (suc n) ordinal seq sizes h room =
    let next = add64 seq 1 in
    let name = entry_name ordinal next in
    elim (Option-cases (find name sizes)) [
      | inl e ↦ ground arith
      | inr (size, e) ↦
          let fewer = remove name sizes in
          let later = next_seq n ordinal next sizes in
          let shorter = length-remove_old name size sizes e in
          let free = next_seq-fresh n ordinal next fewer (omega (arith, shorter)) (omega arith) in
          let bounds = next_seq-bounds n ordinal next sizes (omega arith) in
          ground (
            arith,
            free,
            next_seq-remove n ordinal next next sizes,
            find-remove name (entry_name ordinal later) sizes,
            text_eq_iff name (entry_name ordinal later),
            entry_name-injective ordinal next later,
            bounds,
          )
    ]

-- `nextName` finds a name that no entry has, as long as the sequence numbers do not wrap around.
pub next_name_fresh :
    (s : Spool) → s.seq + length s.sizes + 1 < modulus → find (next_name s).1 s.sizes ≡ none
unfolding next_name
next_name_fresh s room =
    next_seq-fresh (length s.sizes) (add64 s.enqueued 1) s.seq s.sizes (omega arith) room
