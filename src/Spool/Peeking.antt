-- ===== src/Spool/Peeking.antt =====
-- What Peek of internal/spool/spool.go drops, and what it returns.
use mcp_ironclaw.Prelude.{
  ℕ, ◌≡◌, refl, ◌⊎◌, inl, inr, true, false, List, ◌∷◌, arith, Bool-cases, List-cases, subst, sym,
  ap, ◌∙◌,
}
use mcp_ironclaw.Go.Text.{Text}
use mcp_ironclaw.Domain.Errors.{Error, Result, ok, err, Result-cases, is_not_exist}
use mcp_ironclaw.Spool.{Spool, peek, peek_entry, drop_missing}
use mcp_ironclaw.Spool.Files.{Disk}
use mcp_ironclaw.Spool.Index.{IsIndexed}
use mcp_ironclaw.Spool.Front.{IsAdvanced, remove_locked-IsAdvanced, peek_empty, peek_front}

module _ {W : Type 0} (d : Disk W) where
  -- There is no regular file of the name: the disk says that it does not exist, when it is asked for
  -- its kind or when it is read, or that it is of another kind.
  abbrev pub IsGone : Text → W → Type 0
  IsGone name x =
      (d.is_regular name x ≡ ok false)
      ⊎ ((e : Error) × (is_not_exist e ≡ true)
          × ((d.is_regular name x ≡ err e)
              ⊎ ((d.is_regular name x ≡ ok true) × (d.read_file name x ≡ err e))))

  -- All entries are left, or all but the oldest one, whose file is gone.
  abbrev pub IsLeft : Spool → Spool → W → Type 0
  IsLeft s t x = (t.order ≡ s.order) ⊎ ((name : Text) × (s.order ≡ name ∷ t.order) × IsGone name x)

  -- What is left, and that the payload which is returned is the content of the file.
  abbrev pub IsLooked : Spool → W → (Spool × W) × Result (List ℕ × Text) → Type 0
  IsLooked s x r =
      IsLeft s r.0.0 x
      × ((payload : List ℕ) (name : Text)
          → r.1 ≡ ok (payload, name)
          → d.read_file name x ≡ ok payload)

  IsAdvanced-IsLeft :
      (room : ℕ) (name : Text) (names : List Text) (s t : Spool) (x : W)
      → s.order ≡ name ∷ names
      → IsGone name x
      → IsAdvanced room s t
      → IsLeft s t x
  IsAdvanced-IsLeft room name names s t x o g a = elim (a.order) [
    | inl same ↦ inl same
    | inr (name', front) ↦
        let named : name ≡ name' = cc in inr (name', front, subst (λ n. IsGone n x) named g)
  ]

  drop_missing-IsLeft :
      (room : ℕ) (name : Text) (names : List Text) (e : Error) (s : Spool) (x : W)
      → s.order ≡ name ∷ names
      → IsIndexed room s
      → (is_not_exist e ≡ true → IsGone name x)
      → IsLooked s x (drop_missing d name e (s, x))
  drop_missing-IsLeft room name names e s x o h g = elim (Bool-cases (is_not_exist e)) [
    | inl f ↦
        rw (f, drop_missing)
          (
            IsAdvanced-IsLeft room name names s _ x o (g f)
                (remove_locked-IsAdvanced d room name names s x o h),
            λ p n k. cc,
          )
    | inr f ↦ rw (f, drop_missing) (inl refl, λ p n k. cc)
  ]

  peek_entry-IsLeft :
      (room : ℕ) (name : Text) (names : List Text) (s : Spool) (x : W)
      → s.order ≡ name ∷ names
      → IsIndexed room s
      → IsLooked s x (peek_entry d name (s, x))
  unfolding peek_entry
  peek_entry-IsLeft room name names s x o h = elim (Result-cases (d.is_regular name x)) [
    | inl (e, f) ↦
        let left =
          drop_missing-IsLeft room name names e s x o h (λ missing. inr (e, missing, inl f)) in
        rw (f, peek_entry) left
    | inr (regular, f) ↦ elim (Bool-cases regular) [
      | inr g ↦
          let removed = remove_locked-IsAdvanced d room name names s x o h in
          let left = IsAdvanced-IsLeft room name names s _ x o (inl (f ∙ ap ok g)) removed in
          rw (f, peek_entry, g) (left, λ p n k. cc)
      | inl g ↦ elim (Result-cases (d.read_file name x)) [
        | inl (e, k) ↦
            let left =
              drop_missing-IsLeft room name names e s x o h
                (λ missing. inr (e, missing, inr (f ∙ ap ok g, k))) in
            rw (f, peek_entry, g, k) left
        | inr (content, k) ↦ rw (f, peek_entry, g, k) (inl refl, λ p n q. ground (arith, k))
      ]
    ]
  ]

  -- Peek drops at most the oldest entry, and that only when its file is gone; what it returns is the
  -- content of a file.
  pub peek-IsLeft : (room : ℕ) (s : Spool) (x : W) → IsIndexed room s → IsLooked s x (peek d (s, x))
  peek-IsLeft room s x h = elim (List-cases s.order) [
    | inl o ↦ subst (IsLooked s x) (sym (peek_empty d s x o)) (inl refl, λ p n q. cc)
    | inr (name, names, o) ↦
        subst (IsLooked s x) (sym (peek_front d name names s x o))
          (peek_entry-IsLeft room name names s x o h)
  ]
