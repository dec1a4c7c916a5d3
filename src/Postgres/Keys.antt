-- ===== src/Postgres/Keys.antt =====
-- The primary key of a table of internal/postgresstore/store.go, and tables whose rows are moved apart.
use mcp_ironclaw.Prelude.{
  ℕ, refl, ◌∙◌, ◌≡◌, inl, inr, Bool, false, not, ◌||◌, [], ◌∷◌, ◌++◌, select, arith, Bool-cases,
}
use mcp_ironclaw.Go.Int64.{sum64}
use mcp_ironclaw.Go.Text.{Text, text_eq_iff}
use mcp_ironclaw.Domain.Key.{AggregateWindow}
use mcp_ironclaw.Postgres.Statements.{Table, column_sum, conflicts, insert_window, same_row}
use mcp_ironclaw.Postgres.Partitions.{insert_all}

-- The primary key: no two rows of a table have the same one.
unfoldable pub IsKeyed : Table → Type 0
IsKeyed [] = Unit
IsKeyed (w ∷ rows) = (conflicts w rows ≡ false) × IsKeyed rows

same_row-sym : (a b : AggregateWindow) → same_row a b ≡ same_row b a
unfolding same_row
same_row-sym a b = ground (
  arith,
  text_eq_iff a.user_id b.user_id,
  text_eq_iff b.user_id a.user_id,
  text_eq_iff a.device_id b.device_id,
  text_eq_iff b.device_id a.device_id,
  text_eq_iff a.pod_id b.pod_id,
  text_eq_iff b.pod_id a.pod_id,
)

conflicts-append :
    (w : AggregateWindow) (xs ys : Table)
    → conflicts w (xs ++ ys) ≡ (conflicts w xs || conflicts w ys)
unfolding conflicts
conflicts-append w [] ys = refl
conflicts-append w (x ∷ xs) ys = ground (arith, conflicts-append w xs ys)

insert-IsKeyed :
    (w : AggregateWindow) (xs ys : Table)
    → conflicts w (xs ++ ys) ≡ false
    → IsKeyed (xs ++ ys)
    → IsKeyed (xs ++ w ∷ ys)
unfolding IsKeyed conflicts
insert-IsKeyed w [] ys c k = (c, k)
insert-IsKeyed w (x ∷ xs) ys c k = ground (
  arith,
  insert-IsKeyed w xs ys,
  conflicts-append x xs (w ∷ ys),
  conflicts-append x xs ys,
  same_row-sym x w,
)

-- The place of a row does not matter to a sum.
device_sum-middle :
    (f : AggregateWindow → ℕ) (user device : Text) (w : AggregateWindow) (xs ys : Table)
    → column_sum f user device (xs ++ w ∷ ys) ≡ column_sum f user device (w ∷ (xs ++ ys))
unfolding select sum64
device_sum-middle f user device w [] ys = refl
device_sum-middle f user device w (x ∷ xs) ys =
    ground (arith, device_sum-middle f user device w xs ys)

module _ (p : AggregateWindow → Bool) where
  abbrev pub apart : Table → Table → Table
  apart xs ys = select (λ w. not (p w)) xs ++ (select p xs ++ ys)

  conflicts-apart :
      (w : AggregateWindow) (xs ys : Table) → conflicts w (apart xs ys) ≡ conflicts w (xs ++ ys)
  unfolding conflicts select
  conflicts-apart w [] ys = refl
  conflicts-apart w (x ∷ xs) ys = ground (
    arith,
    conflicts-apart w xs ys,
    conflicts-append w (select (λ w. not (p w)) xs) (select p xs ++ ys),
    conflicts-append w (select (λ w. not (p w)) xs) (x ∷ (select p xs ++ ys)),
  )

  pub apart-IsKeyed : (xs ys : Table) → IsKeyed (xs ++ ys) → IsKeyed (apart xs ys)
  unfolding IsKeyed select
  apart-IsKeyed [] ys k = k
  apart-IsKeyed (x ∷ xs) ys k = elim (Bool-cases (p x)) [
    | inl e ↦ rw e (
        insert-IsKeyed x (select (λ w. not (p w)) xs) (select p xs ++ ys)
          (conflicts-apart x xs ys ∙ k.0) (apart-IsKeyed xs ys k.1))
    | inr e ↦ rw e (conflicts-apart x xs ys ∙ k.0, apart-IsKeyed xs ys k.1)
  ]

  select-conflicts :
      (w : AggregateWindow) (xs ys : Table)
      → conflicts w (xs ++ ys) ≡ false
      → conflicts w (select p xs ++ ys) ≡ false
  unfolding conflicts select
  select-conflicts w [] ys c = c
  select-conflicts w (x ∷ xs) ys c = ground (arith, select-conflicts w xs ys)

  pub insert_all-append :
      (xs ys : Table) → IsKeyed (xs ++ ys) → insert_all (select p xs) ys ≡ select p xs ++ ys
  unfolding insert_all insert_window IsKeyed select
  insert_all-append [] ys k = refl
  insert_all-append (x ∷ xs) ys k =
      ground (arith, insert_all-append xs ys k.1, select-conflicts x xs ys k.0)

  pub device_sum-apart :
      (f : AggregateWindow → ℕ) (user device : Text) (xs ys : Table)
      → column_sum f user device (apart xs ys) ≡ column_sum f user device (xs ++ ys)
  unfolding select sum64
  device_sum-apart f user device [] ys = refl
  device_sum-apart f user device (x ∷ xs) ys = ground (
    arith,
    device_sum-apart f user device xs ys,
    device_sum-middle f user device x (select (λ w. not (p w)) xs) (select p xs ++ ys),
  )
