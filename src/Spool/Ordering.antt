-- ===== src/Spool/Ordering.antt =====
-- The sort at the end of `recover` in internal/spool/spool.go keeps the names of the entries.
use mcp_ironclaw.Prelude.{◌≡◌, refl, arith, Bool, false, ◌||◌, List, [], ◌∷◌, map}
use mcp_ironclaw.Go.Text.{Text, text_eq, text_eq_iff}
use mcp_ironclaw.Go.Map.{string_eq}
use mcp_ironclaw.Go.Map.Entries.{has}
use mcp_ironclaw.Go.Sort.{sort_by, insert}
use mcp_ironclaw.Spool.Index.{IsDistinct}

module _ {A : Type 0} (less : A → A → Bool) (name : A → Text) where
  has-map-insert :
      (k : Text) (x : A) (ys : List A)
      → has k (map name (insert less x ys)) ≡ (text_eq (name x) k || has k (map name ys))
  unfolding has insert
  has-map-insert k x [] = refl
  has-map-insert k x (y ∷ ys) = ground (arith, has-map-insert k x ys)

  pub has-map-sort_by :
      (k : Text) (xs : List A) → has k (map name (sort_by less xs)) ≡ has k (map name xs)
  unfolding has sort_by
  has-map-sort_by k [] = refl
  has-map-sort_by k (x ∷ xs) =
      ground (arith, has-map-insert k x (sort_by less xs), has-map-sort_by k xs)

  map-insert-IsDistinct :
      (x : A) (ys : List A)
      → has (name x) (map name ys) ≡ false
      → IsDistinct (map name ys)
      → IsDistinct (map name (insert less x ys))
  unfolding has insert IsDistinct
  map-insert-IsDistinct x [] h u = (refl, tt)
  map-insert-IsDistinct x (y ∷ ys) h u = ground (
    arith,
    map-insert-IsDistinct x ys (ground arith) u.1,
    has-map-insert (name y) x ys,
    text_eq_iff (name x) (name y),
    text_eq_iff (name y) (name x),
  )

  pub map-sort_by-IsDistinct :
      (xs : List A) → IsDistinct (map name xs) → IsDistinct (map name (sort_by less xs))
  unfolding has sort_by IsDistinct
  map-sort_by-IsDistinct [] u = tt
  map-sort_by-IsDistinct (x ∷ xs) u =
      map-insert-IsDistinct x (sort_by less xs) (ground (arith, has-map-sort_by (name x) xs, u.0))
        (map-sort_by-IsDistinct xs u.1)
