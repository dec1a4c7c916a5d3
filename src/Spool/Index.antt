-- ===== src/Spool/Index.antt =====
-- The index of internal/spool/spool.go: the order, the sizes and the byte count agree, whatever the
-- disk answers.
use mcp_ironclaw.Prelude.{
  ℕ, ◌+◌, ◌<◌, ◌≡◌, refl, inl, inr, Bool, true, false, not, ◌&&◌, Option, none, some, List, [], ◌∷◌,
  arith, Option-cases,
}
use mcp_ironclaw.Go.Int64.{sign_bit}
use mcp_ironclaw.Go.Text.{Text, text_eq, text_eq_iff}
use mcp_ironclaw.Go.Map.{
  Map, find, put, remove, find-remove, string_eq, IsUnique, remove-IsUnique, remove_absent,
}
use mcp_ironclaw.Go.Map.Entries.{has}
use mcp_ironclaw.Spool.{Spool, forget_entry, remove_first}

-- The sum of the sizes.
abbrev pub stored : Map Text ℕ → ℕ
stored [] = 0
stored ((name, size) ∷ m) = size + stored m

pub stored-put :
    (k : Text) (v : ℕ) (m : Map Text ℕ) → find k m ≡ none → stored (put k v m) ≡ stored m + v
unfolding put find
stored-put k v [] h = omega arith
stored-put k v ((j, w) ∷ m) h = ground (arith, stored-put k v m)

pub stored-remove :
    (k : Text) (v : ℕ) (m : Map Text ℕ)
    → IsUnique m
    → find k m ≡ some v
    → stored (remove k m) + v ≡ stored m
unfolding IsUnique find remove
stored-remove k v [] u h = cc
stored-remove k v ((j, w) ∷ m) u h =
    ground (arith, stored-remove k v m u.1, remove_absent k m, text_eq_iff j k)

abbrev pub is_some {ℓ} : {A : Type ℓ} → Option A → Bool
is_some none = false
is_some (some a) = true

-- No name stands twice.
unfoldable pub IsDistinct : List Text → Type 0
IsDistinct [] = Unit
IsDistinct (n ∷ ns) = (has n ns ≡ false) × IsDistinct ns

has-remove_first :
    (k j : Text) (ns : List Text)
    → IsDistinct ns
    → has j (remove_first k ns) ≡ (has j ns && not (text_eq k j))
unfolding IsDistinct remove_first has
has-remove_first k j [] h = refl
has-remove_first k j (n ∷ ns) h =
    ground (arith, has-remove_first k j ns h.1, text_eq_iff n k, text_eq_iff n j, text_eq_iff k j)

remove_first-IsDistinct :
    (k : Text) (ns : List Text) → IsDistinct ns → IsDistinct (remove_first k ns)
unfolding IsDistinct remove_first
remove_first-IsDistinct k [] h = tt
remove_first-IsDistinct k (n ∷ ns) h =
    ground (arith, remove_first-IsDistinct k ns h.1, has-remove_first k n ns h.1)

-- The index, with room for so many bytes more in the range of the byte count.
pub record IsIndexed (room : ℕ) (s : Spool) : Type 0 where
  pub unique : IsUnique s.sizes
  pub distinct : IsDistinct s.order
  pub same : (n : Text) → has n s.order ≡ is_some (find n s.sizes)
  pub bytes : s.bytes ≡ stored s.sizes
  pub small : stored s.sizes + room < sign_bit

pub forget_entry-IsIndexed :
    (room : ℕ) (name : Text) (s : Spool) → IsIndexed room s → IsIndexed room (forget_entry name s)
unfolding forget_entry
forget_entry-IsIndexed room name s x = elim (Option-cases (find name s.sizes)) [
  | inl e ↦ rw (e, forget_entry) x
  | inr (size, e) ↦
      let less = stored-remove name size s.sizes x.unique e in
      rw (e, forget_entry)
        (record {
          unique = remove-IsUnique name s.sizes x.unique;
          distinct = remove_first-IsDistinct name s.order x.distinct;
          same = λ n. ground (
            arith,
            has-remove_first name n s.order x.distinct,
            find-remove name n s.sizes,
            x.same n,
            text_eq_iff name n,
          );
          bytes = ground (arith, less, x.bytes, x.small);
          small = omega (arith, less, x.small);
        })
]
