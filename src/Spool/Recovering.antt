-- ===== src/Spool/Recovering.antt =====
-- `recover` and `Open` of internal/spool/spool.go make an index that agrees with the directory.
use mcp_ironclaw.Prelude.{
  ℕ, ◌+◌, ◌<◌, ◌≡◌, refl, ◌∙◌, inl, inr, false, Option, none, some, List, [], ◌∷◌, map, arith, All,
  Bool-cases, Option-cases,
}
use mcp_ironclaw.Go.Int64.{sign_bit}
use mathlib.Core.List.{map-append}
use mcp_ironclaw.Go.Parse.{extension_of}
use mcp_ironclaw.Go.Text.{Text, text_eq, text_eq_iff}
use mcp_ironclaw.Go.Map.{IsUnique, put, find, find-put, string_eq}
use mcp_ironclaw.Go.Map.Entries.{has}
use mcp_ironclaw.Domain.Errors.{ok, err, Result-cases}
use mcp_ironclaw.Spool.{Spool, add_entry, max_entries_of}
use mcp_ironclaw.Spool.Files.{Disk}
use mcp_ironclaw.Spool.Index.{IsIndexed, IsDistinct}
use mcp_ironclaw.Spool.Enqueue.{recount, add_entry-IsIndexed}
use mcp_ironclaw.Spool.Names.{extension, pending}
use mcp_ironclaw.Spool.Ordering.{has-map-sort_by, map-sort_by-IsDistinct}
use mcp_ironclaw.Spool.Parsing.{parse_name}
use mcp_ironclaw.Spool.Opening.{
  empty_spool, DirEntry, Directory, Entry, Recovery, entry_less, observe, found_entry,
  recover_entry, recover_entries, in_order, recover,
}

abbrev pub entry_name_of : Entry → Text
entry_name_of e = e.name

-- The sum of the sizes that a directory tells.
abbrev pub listed : List DirEntry → ℕ
listed [] = 0
listed (e ∷ es) = elim (e.info) [ err x ↦ 0 | ok size ↦ size ] + listed es

-- The spool with the entries that were found so far as its order.
abbrev so_far : {W : Type 0} → Recovery W → Spool
so_far v = record (v.spool) { order = map entry_name_of v.found }

abbrev IsNew : Spool → DirEntry → Type 0
IsNew s e = find e.name s.sizes ≡ none

-- The index agrees with what was found, and none of the entries to come is in it.
record IsScanned {W : Type 0} (max_bytes room : ℕ) (es : List DirEntry) (v : Recovery W)
    : Type 0 where
  indexed : IsIndexed (listed es + room) (so_far v)
  new : All (IsNew v.spool) es
  kept :
      (v.spool.max_bytes ≡ max_bytes)
      × (v.spool.max_entries ≡ max_entries_of max_bytes)
      × (v.spool.drop_failures ≡ 0)

IsNew-put :
    (name : Text) (size : ℕ) (s s' : Spool) (es : List DirEntry)
    → s'.sizes ≡ put name size s.sizes
    → has name (map (λ e. e.name) es) ≡ false
    → All (IsNew s) es
    → All (IsNew s') es
unfolding has
IsNew-put name size s s' [] z h a = tt
IsNew-put name size s s' (e ∷ es) z h a = (
  ground (
    arith,
    find-put name e.name size s.sizes,
    text_eq_iff e.name name,
    text_eq_iff name e.name,
    a.0,
  ),
  IsNew-put name size s s' es z (ground arith) a.1,
)

-- A round that leaves the spool and the entries alone.
passed_over :
    {W : Type 0} (max_bytes room : ℕ) (e : DirEntry) (es : List DirEntry) (v : Recovery W) (x : W)
    → IsScanned max_bytes room (e ∷ es) v
    → IsScanned max_bytes room es (record v { disk = x })
passed_over max_bytes room e es v x s = record {
  indexed =
      recount (listed es + room) (so_far v) (so_far (record v { disk = x })) refl refl refl
        (record {
          unique = s.indexed.unique;
          distinct = s.indexed.distinct;
          same = s.indexed.same;
          bytes = s.indexed.bytes;
          small = omega (arith, s.indexed.small);
        });
  new = s.new.1;
  kept = s.kept;
}

module _ {W : Type 0} (d : Disk W) where
  found_entry-IsScanned :
      (max_bytes room size : ℕ) (e : DirEntry) (es : List DirEntry) (v : Recovery W)
      (parsed : Option (ℕ × ℕ))
      → e.info ≡ ok size
      → has e.name (map (λ e. e.name) es) ≡ false
      → IsScanned max_bytes room (e ∷ es) v
      → IsScanned max_bytes room es (found_entry e.name size parsed v)
  unfolding observe
  found_entry-IsScanned max_bytes room size e es v none i h s =
      passed_over max_bytes room e es v v.disk s
  found_entry-IsScanned max_bytes room size e es v (some (o, q)) i h s =
      let moved : IsIndexed (size + (listed es + room)) (so_far v) = record {
        unique = s.indexed.unique;
        distinct = s.indexed.distinct;
        same = s.indexed.same;
        bytes = s.indexed.bytes;
        small = ground (arith, s.indexed.small, i);
      } in
      let added = add_entry-IsIndexed d e.name size (listed es + room) (so_far v) s.new.0 moved in
      let v' = found_entry e.name size (some (o, q)) v in
      record {
        indexed =
            recount (listed es + room) (add_entry e.name size (so_far v)) (so_far v')
              (map-append entry_name_of v.found _) refl refl added;
        new = IsNew-put e.name size v.spool v'.spool es refl h s.new.1;
        kept = s.kept;
      }

  recover_entry-IsScanned :
      (max_bytes room : ℕ) (e : DirEntry) (es : List DirEntry) (v : Recovery W)
      → has e.name (map (λ e. e.name) es) ≡ false
      → IsScanned max_bytes room (e ∷ es) v
      → (recover_entry d e v).1 ≡ none
      → IsScanned max_bytes room es (recover_entry d e v).0
  unfolding recover_entry
  recover_entry-IsScanned max_bytes room e es v h s f =
      elim (Bool-cases (text_eq (extension_of e.name) pending)) [
        | inl a ↦
            rw (recover_entry, a)
              (passed_over max_bytes room e es v (d.remove_file e.name v.disk).0 s)
        | inr a ↦ elim (Bool-cases (text_eq (extension_of e.name) extension)) [
          | inr b ↦ rw (recover_entry, a, b) (passed_over max_bytes room e es v v.disk s)
          | inl b ↦ elim (Bool-cases e.is_regular) [
            | inr c ↦ rw (recover_entry, a, b, c) (passed_over max_bytes room e es v v.disk s)
            | inl c ↦ elim (Result-cases e.info) [
              | inr (size, i) ↦
                  rw (recover_entry, a, b, c, i)
                    (found_entry-IsScanned max_bytes room size e es v (parse_name e.name) i h s)
              | inl (x, i) ↦ absurd (ground arith)
            ]
          ]
        ]
      ]

  recover_entries-IsScanned :
      (max_bytes room : ℕ) (es : List DirEntry) (v : Recovery W)
      → IsDistinct (map (λ e. e.name) es)
      → IsScanned max_bytes room es v
      → (recover_entries d es v).1 ≡ none
      → IsScanned max_bytes room [] (recover_entries d es v).0
  unfolding recover_entries IsDistinct
  recover_entries-IsScanned max_bytes room [] v u s f = s
  recover_entries-IsScanned max_bytes room (e ∷ es) v u s f =
      elim (Option-cases (recover_entry d e v).1) [
        | inl g ↦
            rw (recover_entries, g)
              (recover_entries-IsScanned max_bytes room es (recover_entry d e v).0 u.1
                (recover_entry-IsScanned max_bytes room e es v u.0 s g) (ground arith))
        | inr (x, g) ↦ absurd (ground arith)
      ]

  in_order-IsIndexed :
      (max_bytes room : ℕ) (v : Recovery W)
      → IsScanned max_bytes room [] v
      → IsIndexed room (in_order v)
  in_order-IsIndexed max_bytes room v s = record {
    unique = s.indexed.unique;
    distinct = map-sort_by-IsDistinct entry_less entry_name_of v.found s.indexed.distinct;
    same = λ n. has-map-sort_by entry_less entry_name_of n v.found ∙ s.indexed.same n;
    bytes = s.indexed.bytes;
    small = omega (arith, s.indexed.small);
  }

  All-IsNew : (max_bytes : ℕ) (es : List DirEntry) → All (IsNew (empty_spool max_bytes)) es
  unfolding find
  All-IsNew max_bytes [] = tt
  All-IsNew max_bytes (e ∷ es) = (refl, All-IsNew max_bytes es)

  start-IsScanned :
      (max_bytes room : ℕ) (es : List DirEntry) (x : W)
      → listed es + room < sign_bit
      → IsScanned max_bytes room es (record { spool = empty_spool max_bytes; found = []; disk = x })
  unfolding IsUnique IsDistinct has find
  start-IsScanned max_bytes room es x b = record {
    indexed = record {
      unique = tt;
      distinct = tt;
      same = λ n. refl;
      bytes = refl;
      small = ground (arith, b);
    };
    new = All-IsNew max_bytes es;
    kept = (refl, refl, refl);
  }

  -- What `recover` makes: an index that agrees with the directory, and the bounds of the budget.
  abbrev pub IsRecovered : ℕ → ℕ → Spool → Type 0
  IsRecovered max_bytes room s =
      IsIndexed room s
      × (s.max_bytes ≡ max_bytes)
      × (s.max_entries ≡ max_entries_of max_bytes)
      × (s.drop_failures ≡ 0)

  pub recover-IsRecovered :
      (f : Directory W) (max_bytes room : ℕ) (x : W) (es : List DirEntry) (s : Spool)
      → f.read_dir x ≡ ok es
      → IsDistinct (map (λ e. e.name) es)
      → listed es + room < sign_bit
      → (recover d f (empty_spool max_bytes) x).1 ≡ ok s
      → IsRecovered max_bytes room s
  unfolding recover
  recover-IsRecovered f max_bytes room x es s l u b h =
      let v0 : Recovery W = record { spool = empty_spool max_bytes; found = []; disk = x } in
      elim (Option-cases (recover_entries d es v0).1) [
        | inl g ↦
            let scanned =
              recover_entries-IsScanned max_bytes room es v0 u
                (start-IsScanned max_bytes room es x b) g in
            let same : s ≡ in_order (recover_entries d es v0).0 = ground arith in
            rw same (
              in_order-IsIndexed max_bytes room (recover_entries d es v0).0 scanned,
              scanned.kept.0,
              scanned.kept.1,
              scanned.kept.2,
            )
        | inr (e, g) ↦ absurd (ground arith)
      ]
