-- ===== src/Spool/Budget.antt =====
-- The byte budget of internal/spool/spool.go, under `Enqueue`.
use mcp_ironclaw.Prelude.{
  ◌∙◌, ◌==◌, leb, Option, ◌<◌, ◌≤◌, length, List-cases, if_both, ℕ, zero, suc, ◌+◌, ◌≡◌, refl, sym,
  ap, inl, inr, ◌⊎◌, true, false, none, some, List, [], ◌∷◌, arith, Option-cases, Bool-cases,
}
use mcp_ironclaw.Go.Int64.{modulus, sign_bit, slt, add64}
use mcp_ironclaw.Domain.Errors.{invalid_name}
use mcp_ironclaw.Go.Text.{Text, text_eq_iff}
use mcp_ironclaw.Go.Map.{Map, find, string_eq}
use mcp_ironclaw.Go.Map.Entries.{has}
use mcp_ironclaw.Spool.{
  Error, enqueue_in, enqueue, store_entry, forget_entry, remove_first, Spool, remove_locked,
  drop_oldest, make_room, is_unsafe, ignore_missing, next_name,
}
use mcp_ironclaw.Spool.Files.{publish_file, Disk}
use mcp_ironclaw.Spool.Index.{IsIndexed, stored, is_some}
use mcp_ironclaw.Spool.Enqueue.{drop_oldest-IsIndexed}

-- Of two states, the budget is that of the first and one deletion failed between them.
abbrev pub IsFailed : Spool → Spool → Type 0
IsFailed s t = t.drop_failures ≡ s.drop_failures + 1

-- One more entry is gone, and nothing failed.
abbrev pub IsDropped : List Text → Spool → Spool → Type 0
IsDropped names s t = (t.order ≡ names) × (t.drop_failures ≡ s.drop_failures)

-- There is room for so many bytes, or a deletion failed.
abbrev pub IsRoom : ℕ → Spool → Spool → Type 0
IsRoom size s t = (t.max_bytes ≡ s.max_bytes) × ((t.bytes + size ≤ s.max_bytes) ⊎ IsFailed s t)

forget_oldest :
    (name : Text) (names : List Text) (size : ℕ) (s : Spool)
    → s.order ≡ name ∷ names
    → find name s.sizes ≡ some size
    → (forget_entry name s).order ≡ names
unfolding forget_entry remove_first
forget_oldest name names size s o e = ground (arith, text_eq_iff name name)

no_entries : (m : Map Text ℕ) → ((n : Text) → false ≡ is_some (find n m)) → stored m ≡ 0
unfolding find
no_entries [] h = refl
no_entries ((j, v) ∷ m) h = ground (arith, h j, text_eq_iff j j)

pub empty_order : (room : ℕ) (s : Spool) → s.order ≡ [] → IsIndexed room s → s.bytes ≡ 0
unfolding has
empty_order room s o h =
    let gone = no_entries s.sizes (λ n. ap (has n) (sym o) ∙ h.same n) in
    omega (arith, gone, h.bytes)

pub oldest_found :
    (room : ℕ) (name : Text) (names : List Text) (s : Spool)
    → s.order ≡ name ∷ names
    → IsIndexed room s
    → is_some (find name s.sizes) ≡ true
unfolding has
oldest_found room name names s o h = ground (arith, h.same name, text_eq_iff name name)

oldest_gone :
    (room : ℕ) (name : Text) (names : List Text) (s : Spool)
    → s.order ≡ name ∷ names
    → IsIndexed room s
    → ((forget_entry name s).max_bytes ≡ s.max_bytes) × IsDropped names s (forget_entry name s)
unfolding forget_entry
oldest_gone room name names s o h = elim (Option-cases (find name s.sizes)) [
  | inl e ↦ ground (arith, oldest_found room name names s o h)
  | inr (size, e) ↦ ground (arith, forget_oldest name names size s o e)
]

within :
    (room size : ℕ) (s : Spool)
    → slt s.max_bytes (add64 s.bytes size) ≡ false
    → IsIndexed (size + room) s
    → s.max_bytes < sign_bit
    → s.bytes + size ≤ s.max_bytes
within room size s c h b = ground (arith, c, b, h.bytes, h.small)

carry :
    (size : ℕ) (s t r : Spool)
    → t.max_bytes ≡ s.max_bytes
    → t.drop_failures ≡ s.drop_failures
    → IsRoom size t r
    → IsRoom size s r
carry size s t r m f h = ground (arith, m, f, h)

module _ {W : Type 0} (d : Disk W) where
  pub remove_locked_lem :
      (room : ℕ) (name : Text) (names : List Text) (s : Spool) (x : W)
      → s.order ≡ name ∷ names
      → IsIndexed room s
      → let (state, failure) = remove_locked d name (s, x) in
        (failure ≡ none) × (state.0.max_bytes ≡ s.max_bytes) × IsDropped names s state.0
        ⊎ ((e : Error) × (failure ≡ some e)) × (state.0 ≡ s)
  unfolding remove_locked
  remove_locked_lem room name names s x o h = elim (Bool-cases (is_unsafe name)) [
    | inl u ↦ rw (u, remove_locked) (inr ((invalid_name, refl), refl))
    | inr u ↦ elim (Option-cases (ignore_missing (d.remove_file name x).1)) [
      | inr (e, f) ↦ rw (u, remove_locked, f) (inr ((e, refl), refl))
      | inl f ↦
          let (m, g) = oldest_gone room name names s o h in
          rw (u, remove_locked, f) (inl (refl, m, g))
    ]
  ]

  pub drop_oldest_lem :
      (room : ℕ) (name : Text) (names : List Text) (s : Spool) (x : W)
      → s.order ≡ name ∷ names
      → s.drop_failures + 1 < modulus
      → IsIndexed room s
      → let (state, go_on) = drop_oldest d name (s, x) in
        (state.0.max_bytes ≡ s.max_bytes)
        × ((go_on ≡ true) × IsDropped names s state.0 ⊎ (go_on ≡ false) × IsFailed s state.0)
  unfolding drop_oldest
  drop_oldest_lem room name names s x o w h = elim (remove_locked_lem room name names s x o h) [
    | inl (f, m, g) ↦ rw (f, drop_oldest) (m, inl (refl, g))
    | inr ((e, f), g) ↦
        rw (f, drop_oldest)
          (ap Spool.max_bytes g, inr (refl, ground (arith, ap Spool.drop_failures g)))
  ]

  make_room-IsRoom :
      (n size room : ℕ) (s : Spool) (x : W)
      → length s.order ≤ n
      → size ≤ s.max_bytes
      → s.max_bytes < sign_bit
      → s.drop_failures + 1 < modulus
      → IsIndexed (size + room) s
      → IsRoom size s (make_room d n size (s, x)).0
  unfolding make_room
  make_room-IsRoom zero size room s x l fits b w h = elim (List-cases s.order) [
    | inl e ↦ (refl, inl (omega (arith, fits, empty_order (size + room) s e h)))
    | inr (name, names, e) ↦ ground (arith, l, ap length e)
  ]
  make_room-IsRoom (suc n) size room s x l fits b w h = elim (List-cases s.order) [
    | inl e ↦ rw (e, make_room) (refl, inl (omega (arith, fits, empty_order (size + room) s e h)))
    | inr (name, names, e) ↦ elim (Bool-cases (slt s.max_bytes (add64 s.bytes size))) [
      | inr c ↦ rw (e, make_room, c) (refl, inl (within room size s c h b))
      | inl c ↦
          let (m, split) = drop_oldest_lem (size + room) name names s x e w h in
          let (state, go_on) = drop_oldest d name (s, x) in
          elim split [
            | inr (g, f) ↦ rw (e, make_room, c, g) (m, inr f)
            | inl (g, (o, f)) ↦
                let kept = drop_oldest-IsIndexed d (size + room) name s x h in
                let rest =
                  make_room-IsRoom n size room state.0 state.1
                    (ground (arith, l, ap length e, ap length o)) (omega (arith, m, fits))
                    (omega (arith, m, b)) (omega (arith, f, w)) kept in
                rw (e, make_room, c, g) (carry size s state.0 (make_room d n size state).0 m f rest)
          ]
    ]
  ]

  store_entry-IsRoom :
      (payload : List ℕ) (s t : Spool) (x : W)
      → s.max_bytes < sign_bit
      → IsRoom (length payload) s t
      → IsRoom 0 s (store_entry d payload (t, x)).0.0
  unfolding store_entry next_name
  store_entry-IsRoom payload s t x b h =
      let name = (next_name t).1 in
      elim (Option-cases (publish_file d name payload x).1) [
        | inr (e, f) ↦ rw (f, store_entry) (ground (arith, h))
        | inl f ↦ rw (f, store_entry) (ground (arith, h, b))
      ]

  -- After `Enqueue`, whatever it and the disk answer, the spool is within its byte budget, or exactly
  -- one deletion of an old entry failed on the way and is counted: from a spool whose index agrees
  -- and that is within a positive budget, while the counts do not wrap around.
  pub enqueue-IsRoom :
      (payload : List ℕ) (room : ℕ) (s : Spool) (x : W)
      → s.bytes ≤ s.max_bytes
      → s.max_bytes < sign_bit
      → s.drop_failures + 1 < modulus
      → IsIndexed (length payload + room) s
      → IsRoom 0 s (enqueue d payload (s, x)).0.0
  unfolding enqueue enqueue_in
  enqueue-IsRoom payload room s x within_budget b w h =
      let size = length payload in
      let made = make_room d (length s.order) size (s, x) in
      let P : (Spool × W) × Option Error → Type 0 = λ r. IsRoom 0 s r.0.0 in
      let kept : IsRoom 0 s s = (refl, inl (omega (arith, within_budget))) in
      elim (Bool-cases (slt s.max_bytes size)) [
        | inl c ↦ if_both P (size == 0) _ _ kept (rw (c) kept)
        | inr c ↦
            let fits : size ≤ s.max_bytes = ground (arith, c, b, h.small) in
            let roomy = make_room-IsRoom (length s.order) size room s x (omega arith) fits b w h in
            if_both P (size == 0) _ _ kept (
              rw (c) (
                if_both P (leb made.0.max_entries (length made.0.order)) _ _ (ground (arith, roomy))
                  (store_entry-IsRoom payload s made.0 made.1 b roomy)))
      ]
