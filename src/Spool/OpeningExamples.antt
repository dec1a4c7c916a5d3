-- ===== src/Spool/OpeningExamples.antt =====
-- The theorems on the opening of a spool, for a directory that lists two entries out of order and a file
-- that was not finished.
use mathlib.Core.List.Perm
use mcp_ironclaw.Go.Sort.{sort_by, insert}
use mcp_ironclaw.Go.Int64.{sign_bit}
use mcp_ironclaw.Spool.Recovering.{listed}
use mcp_ironclaw.Spool.Names.{pad_int, pad_uint, fixed}
use mcp_ironclaw.Spool.Opening.{recover_entry, recover_entries, observe, open_in}
use mcp_ironclaw.Spool.{
  trim_to_budget, drop_oldest, remove_locked, is_unsafe, forget_entry, remove_first,
}
use mcp_ironclaw.Go.Parse.{parse_int, parse_uint, decimal, trim_suffix, before_suffix}
use mcp_ironclaw.Go.Map.{put, remove}
use mcp_ironclaw.Prelude.{
  inl, subst, ◌+◌, ◌<◌, ◌≡◌, refl, true, none, List, [], ◌∷◌, ◌++◌, arith, map, select,
}
use mcp_ironclaw.Go.Text.{codes, is_empty, text_eq}
use mcp_ironclaw.Go.Parse.{extension_of, split_at_last}
use mcp_ironclaw.Go.Map.{find, string_eq}
use mcp_ironclaw.Go.Map.Entries.{has}
use mcp_ironclaw.Domain.Errors.{ok}
use mcp_ironclaw.Spool.{Spool}
use mcp_ironclaw.Spool.Names.{fixed, pad_uint, pad_int, entry_name, pending}
use mcp_ironclaw.Spool.Index.{IsDistinct}
use mcp_ironclaw.Spool.Examples.{disk, one_entry}
use mcp_ironclaw.Spool.Parsing.{parse_name}
use mcp_ironclaw.Spool.Opening.{DirEntry, Directory, recover, open_spool, entry_less}
use mcp_ironclaw.Spool.Opened.{IsListing, IsOpened, open_spool-IsOpened}
use mcp_ironclaw.Spool.Reopening.{IsEnqueued, Stored, name_of, file_of, recover_lem}

abbrev first : Stored
first = record { ordinal = 1; sequence = 2; size = 5 }

abbrev second : Stored
second = record { ordinal = 2; sequence = 1; size = 4 }

abbrev unfinished : DirEntry
unfinished = record { name = entry_name 3 3 ++ pending; is_regular = true; info = ok 1 }

abbrev listing : List DirEntry
listing = file_of second ∷ unfinished ∷ file_of first ∷ []

abbrev directory : Directory Unit
directory = record {
  make_all = λ x. (x, none);
  restrict = λ x. (x, none);
  read_dir = λ x. ok listing;
}

recover_lem_example :
    (r : Spool) × ((recover disk directory one_entry tt).1 ≡ ok r)
    × (r.order ≡ map name_of (first ∷ second ∷ []))
unfolding IsEnqueued select text_eq extension_of split_at_last entry_name pad_int pad_uint fixed
    entry_less
recover_lem_example =
    recover_lem disk directory one_entry tt listing (first ∷ second ∷ []) refl
      ((4, refl), ((1, refl), ((5, refl), tt))) (Perm.swap (file_of first) (file_of second) [])
      (omega arith) ((inl (omega arith), tt), (tt, tt))

directory-IsListing : IsListing directory 100
unfolding IsDistinct has text_eq entry_name pad_int pad_uint fixed
directory-IsListing x es h =
    let same : listing ≡ es = cc in
    subst (λ es. IsDistinct (map (λ e. e.name) es) × (listed es + 100 < sign_bit)) same
      ((refl, (refl, (refl, tt))), omega arith)

-- A budget of six bytes, which the second entry does not fit.
abbrev reopened : Spool
reopened = record one_entry {
  order = name_of second ∷ [];
  sizes = (name_of second, 4) ∷ [];
  bytes = 4;
  seq = 2;
  enqueued = 2;
  dropped = 1;
}

open_spool-IsOpened_example : IsOpened 6 100 reopened
unfolding open_spool open_in recover recover_entries recover_entry observe sort_by insert entry_less
    trim_to_budget drop_oldest remove_locked is_unsafe forget_entry remove_first parse_name
    parse_int parse_uint decimal trim_suffix before_suffix text_eq extension_of split_at_last
    entry_name pad_int pad_uint fixed find put remove is_empty
open_spool-IsOpened_example =
    open_spool-IsOpened disk directory (codes "spool") 6 100 tt reopened directory-IsListing
      (omega arith) refl
