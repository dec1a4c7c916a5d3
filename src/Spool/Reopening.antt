-- ===== src/Spool/Reopening.antt =====
-- A spool that is opened again, internal/spool/spool.go: its entries come back in the order in which
-- they were enqueued.
use mathlib.Core.List.{Perm, filter_map}
use mathlib.Core.List.Perm
use mcp_ironclaw.Prelude.{
  ◌⊎◌, ℕ, ◌<◌, ◌≡◌, refl, sym, ◌∙◌, ap, subst, inl, inr, Bool, true, false, ◌&&◌, Option, none,
  some, List, [], ◌∷◌, ◌++◌, map, arith, All, Bool-cases, Option-cases, select, append_assoc,
  append-nil, ltb, if◌then◌else◌,
}
use mcp_ironclaw.Go.Int64.{sign_bit, modulus}
use mcp_ironclaw.Go.Text.{text_eq→eq, text_eq_refl, Text, text_eq}
use mcp_ironclaw.Go.Sort.{sort_by, IsOrder}
use mcp_ironclaw.Go.Sort.Unique.{IsStrict, sort_by_unique}
use mcp_ironclaw.Go.Parse.{extension_of}
use mcp_ironclaw.Domain.Errors.{ok}
use mcp_ironclaw.Spool.{Spool}
use mcp_ironclaw.Spool.Files.{Disk}
use mcp_ironclaw.Spool.Names.{extension, pending, entry_name}
use mcp_ironclaw.Spool.Recovering.{entry_name_of}
use mcp_ironclaw.Spool.Parsing.{parse_name, parse_name-entry_name}
use mcp_ironclaw.Spool.Opening.{
  DirEntry, Directory, Entry, Recovery, entry_less, found_entry, recover_entry, recover_entries,
  in_order, recover,
}

-- The regular files that have the extension of an entry.
abbrev pub is_entry : DirEntry → Bool
is_entry e = text_eq (extension_of e.name) extension && e.is_regular

abbrev entry_with : Text → Option (ℕ × ℕ) → Option Entry
entry_with name none = none
entry_with name (some (ordinal, sequence)) =
    some (record { name = name; ordinal = ordinal; sequence = sequence })

abbrev entry_of : DirEntry → Option Entry
entry_of e = entry_with e.name (parse_name e.name)

abbrev pub IsTold : DirEntry → Type 0
IsTold e = (size : ℕ) × (e.info ≡ ok size)

entry_less-IsOrder : IsOrder entry_less
unfolding entry_less
entry_less-IsOrder = record {
  asym = λ a b h. ground (arith, h);
  not_less_trans = λ a b c h k. ground (arith, h, k);
}

abbrev entries_of : List DirEntry → List Entry
entries_of es = filter_map entry_of (select is_entry es)

-- What a round adds to what was found.
abbrev of_one : DirEntry → List Entry
of_one e = if is_entry e then (elim (entry_of e) [ none ↦ [] | some x ↦ x ∷ [] ]) else []

entries_of-cons :
    (e : DirEntry) (es : List DirEntry) → entries_of (e ∷ es) ≡ of_one e ++ entries_of es
unfolding select filter_map
entries_of-cons e es = elim (Bool-cases (is_entry e)) [
  | inl h ↦ elim (Option-cases (parse_name e.name)) [
    | inl g ↦ rw (h, g) refl
    | inr (parsed, g) ↦ rw (h, g) refl
  ]
  | inr h ↦ rw h refl
]

not_both : (x : Text) → text_eq x pending ≡ true → text_eq x extension ≡ false
unfolding text_eq
not_both x h = subst (λ y. text_eq y extension ≡ false) (sym (text_eq→eq x pending h)) refl

module _ {W : Type 0} (d : Disk W) where
  -- The found entries of a round that adds none, or what the name of the entry says.
  found_entry_lem :
      (name : Text) (size : ℕ) (parsed : Option (ℕ × ℕ)) (v : Recovery W)
      → (found_entry name size parsed v).found
        ≡ v.found ++ (elim (entry_with name parsed) [ none ↦ [] | some x ↦ x ∷ [] ])
  found_entry_lem name size none v = sym (append-nil v.found)
  found_entry_lem name size (some (o, q)) v = refl

  recover_entry_lem :
      (e : DirEntry) (v : Recovery W)
      → IsTold e
      → ((recover_entry d e v).1 ≡ none) × ((recover_entry d e v).0.found ≡ v.found ++ of_one e)
  unfolding recover_entry
  recover_entry_lem e v (size, i) = elim (Bool-cases (text_eq (extension_of e.name) pending)) [
    | inl a ↦
        rw (recover_entry, a, not_both (extension_of e.name) a) (refl, sym (append-nil v.found))
    | inr a ↦ elim (Bool-cases (text_eq (extension_of e.name) extension)) [
      | inr b ↦ rw (recover_entry, a, b) (refl, sym (append-nil v.found))
      | inl b ↦ elim (Bool-cases e.is_regular) [
        | inr c ↦ rw (recover_entry, a, b, c) (refl, sym (append-nil v.found))
        | inl c ↦
            rw (recover_entry, a, b, c, i) (refl, found_entry_lem e.name size (parse_name e.name) v)
      ]
    ]
  ]

  recover_entries_lem :
      (es : List DirEntry) (v : Recovery W)
      → All IsTold es
      → ((recover_entries d es v).1 ≡ none)
        × ((recover_entries d es v).0.found ≡ v.found ++ entries_of es)
  unfolding recover_entries select filter_map
  recover_entries_lem [] v h = (refl, sym (append-nil v.found))
  recover_entries_lem (e ∷ es) v h =
      let (fine, more) = recover_entry_lem e v h.0 in
      let (well, rest) = recover_entries_lem es (recover_entry d e v).0 h.1 in
      rw (recover_entries, fine)
        (
          well,
          rest
              ∙ ap (λ x. x ++ entries_of es) more
              ∙ append_assoc v.found (of_one e) (entries_of es)
              ∙ ap (λ x. v.found ++ x) (sym (entries_of-cons e es)),
        )

-- An entry of a spool: what its name was made of, and its size.
pub record Stored : Type 0 where
  pub ordinal : ℕ
  pub sequence : ℕ
  pub size : ℕ

abbrev pub name_of : Stored → Text
name_of e = entry_name e.ordinal e.sequence

-- Its file, as the directory lists it.
abbrev pub file_of : Stored → DirEntry
file_of e = record { name = name_of e; is_regular = true; info = ok e.size }

abbrev found_of : Stored → Entry
found_of e = record { name = name_of e; ordinal = e.ordinal; sequence = e.sequence }

-- The range of the ordinals, which count from one in an int64, and of the sequence numbers.
abbrev pub IsInRange : Stored → Type 0
IsInRange e = (e.ordinal < sign_bit) × (e.sequence < modulus)

-- One entry was enqueued before another: by the ordinal, then by the sequence number.
abbrev Precedes : Stored → Stored → Type 0
Precedes a b = (a.ordinal < b.ordinal) ⊎ ((a.ordinal ≡ b.ordinal) × (a.sequence < b.sequence))

-- The entries stand in the order in which they were enqueued.
unfoldable pub IsEnqueued : List Stored → Type 0
IsEnqueued [] = Unit
IsEnqueued (e ∷ es) = All (Precedes e) es × IsEnqueued es

Precedes-All :
    (e : Stored) (es : List Stored)
    → IsInRange e
    → All IsInRange es
    → All (Precedes e) es
    → All (λ y. entry_less (found_of e) y ≡ true) (map found_of es)
unfolding entry_less
Precedes-All e [] r rs h = tt
Precedes-All e (x ∷ xs) r rs h = (ground (arith, r, rs.0, h.0), Precedes-All e xs r rs.1 h.1)

IsEnqueued-IsStrict :
    (es : List Stored) → All IsInRange es → IsEnqueued es → IsStrict entry_less (map found_of es)
unfolding IsEnqueued
IsEnqueued-IsStrict [] r h = tt
IsEnqueued-IsStrict (e ∷ es) r h = (Precedes-All e es r.0 r.1 h.0, IsEnqueued-IsStrict es r.1 h.1)

filter_map-file_of :
    (es : List Stored) → All IsInRange es → filter_map entry_of (map file_of es) ≡ map found_of es
unfolding filter_map
filter_map-file_of [] h = refl
filter_map-file_of (e ∷ es) h =
    rw (parse_name-entry_name e.ordinal e.sequence (omega (arith, h.0.0)) h.0.1)
      (ap (λ x. found_of e ∷ x) (filter_map-file_of es h.1))

abbrev is_stored : Entry → Bool
is_stored e =
    text_eq e.name (entry_name e.ordinal e.sequence)
    && (ltb e.ordinal modulus && ltb e.sequence modulus)

is_stored-same :
    (x y : Entry)
    → is_stored x ≡ true
    → is_stored y ≡ true
    → entry_less x y ≡ false
    → entry_less y x ≡ false
    → x ≡ y
unfolding entry_less
is_stored-same x y h k a b =
    let o : x.ordinal ≡ y.ordinal = ground arith in
    let q : x.sequence ≡ y.sequence = ground arith in
    let n : x.name ≡ entry_name x.ordinal x.sequence = text_eq→eq _ _ (ground arith) in
    let m : y.name ≡ entry_name y.ordinal y.sequence = text_eq→eq _ _ (ground arith) in
    cc (o, q, n, m)

found_of-is_stored :
    (es : List Stored) → All IsInRange es → All (λ e. is_stored e ≡ true) (map found_of es)
found_of-is_stored [] h = tt
found_of-is_stored (e ∷ es) h =
    (ground (arith, text_eq_refl (name_of e), h.0), found_of-is_stored es h.1)

map-name_of : (es : List Stored) → map (λ e. e.name) (map found_of es) ≡ map name_of es
map-name_of [] = refl
map-name_of (e ∷ es) = ap (λ x. name_of e ∷ x) (map-name_of es)

module _ {W : Type 0} (d : Disk W) where
  -- When a directory lists the files of the entries, in any order and with anything beside them that
  -- is not a regular file of that extension, such as what is left of a file that was not finished,
  -- the size of every listed file can be read, and the entries' ordinals and sequence numbers fit in
  -- 63 and 64 bits, then `recover` succeeds, and its order is that in which they were enqueued, by
  -- the ordinal and then by the sequence number.
  pub recover_lem :
      (f : Directory W) (s : Spool) (x : W) (listing : List DirEntry) (es : List Stored)
      → f.read_dir x ≡ ok listing
      → All IsTold listing
      → Perm (select is_entry listing) (map file_of es)
      → All IsInRange es
      → IsEnqueued es
      → (r : Spool) × ((recover d f s x).1 ≡ ok r) × (r.order ≡ map name_of es)
  unfolding recover
  recover_lem f s x listing es l told p range order =
      let v0 : Recovery W = record { spool = s; found = []; disk = x } in
      let (fine, found) = recover_entries_lem d listing v0 told in
      let perm : Perm (entries_of listing) (map found_of es) =
        subst (λ y. Perm (entries_of listing) y) (filter_map-file_of es range)
          (Perm.filter_map entry_of p) in
      let sorted =
        sort_by_unique entry_less entry_less-IsOrder is_stored is_stored-same (entries_of listing)
          (map found_of es) perm (IsEnqueued-IsStrict es range order)
          (found_of-is_stored es range) in
      (
        in_order (recover_entries d listing v0).0,
        rw (recover, l, fine) refl,
        ap (map entry_name_of) (ap (sort_by entry_less) found ∙ sorted) ∙ map-name_of es,
      )
