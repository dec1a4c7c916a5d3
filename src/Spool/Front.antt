-- ===== src/Spool/Front.antt =====
-- Peek and Release of internal/spool/spool.go work at the front of the order.
use mcp_ironclaw.Prelude.{
  ap, ◌≡◌, refl, ◌⊎◌, inl, inr, List, [], ◌∷◌, arith, Option-cases, Bool-cases, ℕ, if_both,
  List-cases, subst, sym, ap,
}
use mcp_ironclaw.Go.Text.{Text}
use mcp_ironclaw.Go.Map.{find, string_eq}
use mcp_ironclaw.Domain.Errors.{Error, Result, ok, err, Result-cases, is_not_exist, spool_empty}
use mcp_ironclaw.Spool.{Spool, remove_locked, peek, peek_entry, release_entry, drop_missing}
use mcp_ironclaw.Spool.Files.{Disk}
use mcp_ironclaw.Spool.Index.{IsIndexed}
use mcp_ironclaw.Spool.Enqueue.{remove_locked-IsIndexed, release_entry-IsIndexed}
use mcp_ironclaw.Spool.Budget.{remove_locked_lem}

-- The index agrees, and the order is the old one or the old one without its oldest entry.
pub record IsAdvanced (room : ℕ) (s t : Spool) : Type 0 where
  pub indexed : IsIndexed room t
  pub order : (t.order ≡ s.order) ⊎ ((name : Text) × (s.order ≡ name ∷ t.order))

pub IsAdvanced-refl : (room : ℕ) (s : Spool) → IsIndexed room s → IsAdvanced room s s
IsAdvanced-refl room s h = record { indexed = h; order = inl refl }

module _ {W : Type 0} (d : Disk W) where
  pub remove_locked-IsAdvanced :
      (room : ℕ) (name : Text) (names : List Text) (s : Spool) (x : W)
      → s.order ≡ name ∷ names
      → IsIndexed room s
      → IsAdvanced room s (remove_locked d name (s, x)).0.0
  remove_locked-IsAdvanced room name names s x o h = record {
    indexed = remove_locked-IsIndexed d room name s x h;
    order = elim (remove_locked_lem d room name names s x o h) [
      | inl (f, m, g) ↦ inr (name, ground arith)
      | inr (f, g) ↦ inl (ap Spool.order g)
    ];
  }

  drop_missing-IsAdvanced :
      (room : ℕ) (name : Text) (names : List Text) (e : Error) (s : Spool) (x : W)
      → s.order ≡ name ∷ names
      → IsIndexed room s
      → IsAdvanced room s (drop_missing d name e (s, x)).0.0
  drop_missing-IsAdvanced room name names e s x o h =
      let P : Spool × W → Type 0 = λ r. IsAdvanced room s r.0 in
      if_both P (is_not_exist e) _ _ (remove_locked-IsAdvanced room name names s x o h)
        (IsAdvanced-refl room s h)

  -- What `Peek` returns is at the front, and then it changes nothing; otherwise it may drop the front.
  abbrev pub IsPeeked : ℕ → Spool → (Spool × W) × Result (List ℕ × Text) → Type 0
  IsPeeked room s r =
      IsAdvanced room s r.0.0
      × ((payload : List ℕ) (name : Text)
          → r.1 ≡ ok (payload, name)
          → (r.0.0 ≡ s) × ((names : List Text) × (s.order ≡ name ∷ names)))

  peek_entry-IsPeeked :
      (room : ℕ) (name : Text) (names : List Text) (s : Spool) (x : W)
      → s.order ≡ name ∷ names
      → IsIndexed room s
      → IsPeeked room s (peek_entry d name (s, x))
  unfolding peek_entry
  peek_entry-IsPeeked room name names s x o h = elim (Result-cases (d.is_regular name x)) [
    | inl (e, f) ↦
        rw (f, peek_entry) (drop_missing-IsAdvanced room name names e s x o h, λ p n k. cc)
    | inr (regular, f) ↦ elim (Bool-cases regular) [
      | inr g ↦
          rw (f, peek_entry, g) (remove_locked-IsAdvanced room name names s x o h, λ p n k. cc)
      | inl g ↦ elim (Result-cases (d.read_file name x)) [
        | inl (e, k) ↦
            rw (f, peek_entry, g, k)
              (drop_missing-IsAdvanced room name names e s x o h, λ p n q. cc)
        | inr (content, k) ↦
            rw (f, peek_entry, g, k)
              (IsAdvanced-refl room s h, λ p n q. (refl, (names, ground (arith, o))))
      ]
    ]
  ]

  pub peek_empty : (s : Spool) (x : W) → s.order ≡ [] → peek d (s, x) ≡ ((s, x), err spool_empty)
  unfolding peek
  peek_empty s x o = ground (arith, o)

  pub peek_front :
      (name : Text) (names : List Text) (s : Spool) (x : W)
      → s.order ≡ name ∷ names
      → peek d (s, x) ≡ peek_entry d name (s, x)
  unfolding peek
  peek_front name names s x o = ground (arith, o)

  pub peek-IsPeeked :
      (room : ℕ) (s : Spool) (x : W) → IsIndexed room s → IsPeeked room s (peek d (s, x))
  peek-IsPeeked room s x h = elim (List-cases s.order) [
    | inl o ↦
        subst (IsPeeked room s) (sym (peek_empty s x o)) (IsAdvanced-refl room s h, λ p n q. cc)
    | inr (name, names, o) ↦
        subst (IsPeeked room s) (sym (peek_front name names s x o))
          (peek_entry-IsPeeked room name names s x o h)
  ]

  pub release_entry-IsAdvanced :
      (room : ℕ) (name : Text) (names : List Text) (s : Spool) (x : W)
      → s.order ≡ name ∷ names
      → IsIndexed room s
      → IsAdvanced room s (release_entry d name (s, x)).0.0
  unfolding release_entry
  release_entry-IsAdvanced room name names s x o h =
      let removed = remove_locked-IsAdvanced room name names s x o h in
      record {
        indexed = release_entry-IsIndexed d name room s x h;
        order = elim (Option-cases (find name s.sizes)) [
          | inl e ↦ rw (e, release_entry) (inl refl)
          | inr (size, e) ↦ elim (Option-cases (remove_locked d name (s, x)).1) [
            | inr (y, f) ↦ rw (e, release_entry, f) removed.order
            | inl f ↦ rw (e, release_entry, f) removed.order
          ]
        ];
      }
