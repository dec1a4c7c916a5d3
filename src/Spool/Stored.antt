-- ===== src/Spool/Stored.antt =====
-- What a successful `Enqueue` of internal/spool/spool.go has stored, in the index and on the disk.
use mcp_ironclaw.Prelude.{
  ◌==◌, leb, length, ℕ, ◌≡◌, refl, inl, inr, Option, none, some, List, [], ◌∷◌, ◌++◌, arith,
  Bool-cases, Option-cases, sym, ◌∙◌, ap,
}
use mcp_ironclaw.Go.Int64.{slt}
use mcp_ironclaw.Go.Text.{Text}
use mcp_ironclaw.Go.Map.{find, find-put_self, string_eq}
use mcp_ironclaw.Domain.Errors.{Error}
use mcp_ironclaw.Spool.{enqueue_in, enqueue, store_entry, Spool, make_room, next_name}
use mcp_ironclaw.Spool.Names.{pending}
use mcp_ironclaw.Spool.Files.{Disk, publish_file, write_file_synced, and_then, or_close, or_remove}

module _ {W : Type 0} (d : Disk W) where
  -- The calls that put the payload on the disk for good, one after the other, none of which failed: a
  -- temporary file is opened, takes the payload, is synced and closed and gets the entry's name, and
  -- the directory is synced.
  pub record IsWritten (name : Text) (payload : List ℕ) (x' : W) : Type 0 where
    pub before : W
    pub opened : W
    pub written : W
    pub synced : W
    pub closed : W
    pub renamed : W
    pub opens : d.open_file (name ++ pending) before ≡ (opened, none)
    pub writes : d.write_file (name ++ pending) payload opened ≡ (written, none)
    pub syncs : d.sync_file (name ++ pending) written ≡ (synced, none)
    pub closes : d.close_file (name ++ pending) synced ≡ (closed, none)
    pub renames : d.rename_file (name ++ pending) name closed ≡ (renamed, none)
    pub settles : d.sync_directory renamed ≡ (x', none)

  -- The payload is the newest entry, and in the file of that name.
  abbrev pub IsNewest : List ℕ → Spool × W → Type 0
  IsNewest payload (s, x) =
      (names : List Text) × (name : Text) × (s.order ≡ names ++ name ∷ [])
      × (find name s.sizes ≡ some (length payload))
      × IsWritten name payload x

  succeeded : (r : W × Option Error) → r.1 ≡ none → r ≡ (r.0, none)
  succeeded (x, none) h = refl
  succeeded (x, some e) h = cc

  and_then-ok :
      (step : W → W × Option Error) (r : W × Option Error)
      → (and_then d step r).1 ≡ none
      → (r ≡ (r.0, none)) × (step r.0 ≡ ((and_then d step r).0, none))
  and_then-ok step (x, none) h = (refl, succeeded (step x) h)
  and_then-ok step (x, some e) h = cc

  or_close-ok :
      (path : Text) (step : W → W × Option Error) (x : W)
      → (or_close d path step x).1 ≡ none
      → step x ≡ ((or_close d path step x).0, none)
  or_close-ok path step x h = elim (Option-cases (step x).1) [
    | inl e ↦
        let same : (step x).0 ≡ (or_close d path step x).0 = ground arith in
        succeeded (step x) e ∙ ap (λ y. (y, none)) same
    | inr (y, e) ↦ absurd (ground arith)
  ]

  or_remove-ok :
      (path : Text) (r : W × Option Error)
      → (or_remove d path r).1 ≡ none
      → (r.1 ≡ none) × ((or_remove d path r).0 ≡ r.0)
  or_remove-ok path (x, none) h = (refl, refl)
  or_remove-ok path (x, some e) h = cc

  publish_file-IsWritten :
      (name : Text) (payload : List ℕ) (x x' : W)
      → (publish_file d name payload x).1 ≡ none
      → d.sync_directory (publish_file d name payload x).0 ≡ (x', none)
      → IsWritten name payload x'
  unfolding publish_file write_file_synced
  publish_file-IsWritten name payload x x' h settles =
      let path = name ++ pending in
      let opened = d.open_file path x in
      let written = and_then d (or_close d path (d.write_file path payload)) opened in
      let synced = and_then d (or_close d path (d.sync_file path)) written in
      let closed = and_then d (d.close_file path) synced in
      let renamed = and_then d (d.rename_file path name) closed in
      let (named, same) = or_remove-ok path renamed h in
      let (a, renames) = and_then-ok (d.rename_file path name) closed named in
      let (b, closes) = and_then-ok (d.close_file path) synced (ap (λ r. r.1) a) in
      let (c, syncs) = and_then-ok (or_close d path (d.sync_file path)) written (ap (λ r. r.1) b) in
      let (e, writes) =
        and_then-ok (or_close d path (d.write_file path payload)) opened (ap (λ r. r.1) c) in
      record {
        before = x;
        opened = opened.0;
        written = written.0;
        synced = synced.0;
        closed = closed.0;
        renamed = renamed.0;
        opens = e;
        writes =
            or_close-ok path (d.write_file path payload) opened.0 (ap (λ r. r.1) writes)
            ∙ ap (λ r. (r.0, none)) writes;
        syncs =
            or_close-ok path (d.sync_file path) written.0 (ap (λ r. r.1) syncs)
            ∙ ap (λ r. (r.0, none)) syncs;
        closes = closes;
        renames = renames;
        settles = ap d.sync_directory (sym same) ∙ settles;
      }

  store_entry-IsNewest :
      (payload : List ℕ) (s : Spool) (x : W)
      → (store_entry d payload (s, x)).1 ≡ none
      → IsNewest payload (store_entry d payload (s, x)).0
  unfolding store_entry next_name
  store_entry-IsNewest payload s x h =
      let (s', name) = next_name s in
      let published = publish_file d name payload x in
      elim (Option-cases published.1) [
        | inr (e, f) ↦ absurd (ground arith)
        | inl f ↦
            let synced : (d.sync_directory published.0).1 ≡ none = ground arith in
            rw (f, store_entry)
              (
                s.order,
                name,
                refl,
                find-put_self name (length payload) s.sizes,
                publish_file-IsWritten name payload x (d.sync_directory published.0).0 f
                    (succeeded (d.sync_directory published.0) synced),
              )
      ]

  -- When `Enqueue` succeeds, the payload is on the disk, and its entry is the newest one, with the
  -- payload's size.
  pub enqueue-IsNewest :
      (payload : List ℕ) (s : Spool) (x : W)
      → (enqueue d payload (s, x)).1 ≡ none
      → IsNewest payload (enqueue d payload (s, x)).0
  unfolding enqueue enqueue_in
  enqueue-IsNewest payload s x h =
      let size = length payload in
      let made = make_room d (length s.order) size (s, x) in
      elim (Bool-cases (size == 0)) [
        | inl c ↦ absurd (ground arith)
        | inr c ↦ elim (Bool-cases (slt s.max_bytes size)) [
          | inl g ↦ absurd (ground arith)
          | inr g ↦ elim (Bool-cases (leb made.0.max_entries (length made.0.order))) [
            | inl f ↦ absurd (ground arith)
            | inr f ↦ rw (c, g, f) (store_entry-IsNewest payload made.0 made.1 (ground arith))
          ]
        ]
      ]
