-- ===== src/Spool/Opening.antt =====
-- `Open` and `recover` of internal/spool/spool.go: the index is made again from what the directory
-- lists.
use mcp_ironclaw.Prelude.{
  ℕ, Bool, not, Option, none, some, List, [], ◌∷◌, ◌++◌, ltb, if◌then◌else◌, length, map,
}
use mcp_ironclaw.Go.Int64.{eq64, add64, slt, is_positive}
use mcp_ironclaw.Go.Text.{Text, text_eq, is_empty}
use mcp_ironclaw.Go.Parse.{extension_of}
use mcp_ironclaw.Go.Map.{put, string_eq}
use mcp_ironclaw.Go.Sort.{sort_by}
use mcp_ironclaw.Domain.Errors.{Error, Result, ok, err, no_directory, invalid_budget}
use mcp_ironclaw.Spool.Names.{extension, pending}
use mcp_ironclaw.Spool.Files.{Disk}
use mcp_ironclaw.Spool.{Spool, max_entries_of, trim_to_budget}
use mcp_ironclaw.Spool.Parsing.{parse_name}

-- os.DirEntry, with the size that its Info tells, if it does.
pub record DirEntry : Type 0 where
  pub name : Text
  pub is_regular : Bool
  pub info : Result ℕ

-- What `Open` does to the directory itself.
pub record Directory (W : Type 0) : Type 0 where
  pub make_all : W → W × Option Error
  pub restrict : W → W × Option Error
  pub read_dir : W → Result (List DirEntry)

-- entry
pub record Entry : Type 0 where
  pub name : Text
  pub ordinal : ℕ  -- int64
  pub sequence : ℕ  -- uint64

-- sort.Slice's test
unfoldable pub entry_less : Entry → Entry → Bool
entry_less a b =
    if eq64 a.ordinal b.ordinal then ltb a.sequence b.sequence else slt a.ordinal b.ordinal

unfoldable pub observe : ℕ → ℕ → Spool → Spool
observe ordinal sequence s = record s {
  enqueued = if slt s.enqueued ordinal then ordinal else s.enqueued;
  seq = if ltb s.seq sequence then sequence else s.seq;
}

-- The end of a round of `recover`, for an entry whose name was parsed.
abbrev pub index_entry : Text → ℕ → ℕ → ℕ → Spool → Spool
index_entry name size ordinal sequence s =
    observe ordinal sequence
      (record s { sizes = put name size s.sizes; bytes = add64 s.bytes size })

-- The spool, the entries that were found, and the world of the disk.
pub record Recovery (W : Type 0) : Type 0 where
  pub spool : Spool
  pub found : List Entry
  pub disk : W

abbrev pub found_entry : {W : Type 0} → Text → ℕ → Option (ℕ × ℕ) → Recovery W → Recovery W
found_entry name size none v = v
found_entry name size (some (ordinal, sequence)) v = record v {
  spool = index_entry name size ordinal sequence v.spool;
  found = v.found ++ record { name = name; ordinal = ordinal; sequence = sequence } ∷ [];
}

-- The end of `recover`.
abbrev pub in_order : {W : Type 0} → Recovery W → Spool
in_order v = record (v.spool) { order = map (λ e. e.name) (sort_by entry_less v.found) }

abbrev pub empty_spool : ℕ → Spool
empty_spool max_bytes = record {
  max_bytes = max_bytes;
  max_entries = max_entries_of max_bytes;
  order = [];
  sizes = [];
  bytes = 0;
  seq = 0;
  enqueued = 0;
  dequeued = 0;
  dropped = 0;
  drop_failures = 0;
}

module _ {W : Type 0} (d : Disk W) where
  -- A round of the loop of `recover`.
  unfoldable pub recover_entry : DirEntry → Recovery W → Recovery W × Option Error
  recover_entry e v =
      if text_eq (extension_of e.name) pending
      then (record v { disk = (d.remove_file e.name v.disk).0 }, none)
      else if not (text_eq (extension_of e.name) extension)
      then (v, none)
      else if not e.is_regular
      then (v, none)
      else elim (e.info) [
        | err x ↦ (v, some x)
        | ok size ↦ (found_entry e.name size (parse_name e.name) v, none)
      ]

  unfoldable pub recover_entries : List DirEntry → Recovery W → Recovery W × Option Error
  recover_entries [] v = (v, none)
  recover_entries (e ∷ es) v =
      let (v', failure) = recover_entry e v in
      elim failure [ some x ↦ (v', some x) | none ↦ recover_entries es v' ]

  unfoldable pub recover : Directory W → Spool → W → W × Result Spool
  recover f s x = elim (f.read_dir x) [
    | err e ↦ (x, err e)
    | ok entries ↦
        let (v, failure) = recover_entries entries (record { spool = s; found = []; disk = x }) in
        elim failure [ some e ↦ (v.disk, err e) | none ↦ (v.disk, ok (in_order v)) ]
  ]

  -- `Open` once the directory is there.
  unfoldable pub open_in : Directory W → ℕ → W → W × Result Spool
  open_in f max_bytes x =
      let (x', result) = recover f (empty_spool max_bytes) x in
      elim result [
        | err e ↦ (x', err e)
        | ok s ↦ let (s', x'') = trim_to_budget d (length s.order) (s, x') in (x'', ok s')
      ]

  unfoldable pub open_spool : Directory W → Text → ℕ → W → W × Result Spool
  open_spool f dir max_bytes x =
      if is_empty dir
      then (x, err no_directory)
      else if not (is_positive max_bytes)
      then (x, err invalid_budget)
      else let (x', failure) = f.make_all x in
        elim failure [
          | some e ↦ (x', err e)
          | none ↦
              let (x'', refused) = f.restrict x' in
              elim refused [ some e ↦ (x'', err e) | none ↦ open_in f max_bytes x'' ]
        ]
