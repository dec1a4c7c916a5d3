-- ===== src/Spool/Examples.antt =====
-- The theorems on the spool at a concrete spool, on a disk that refuses nothing.
use mcp_ironclaw.Prelude.{◌≡◌, refl, true, none, [], ◌∷◌, arith}
use mcp_ironclaw.Go.Map.{find, string_eq, IsUnique}
use mcp_ironclaw.Go.Map.Entries.{has}
use mcp_ironclaw.Domain.Errors.{ok}
use mcp_ironclaw.Spool.{Spool, enqueue, next_name}
use mcp_ironclaw.Spool.Files.{Disk}
use mcp_ironclaw.Spool.Names.{entry_name}
use mcp_ironclaw.Spool.Index.{IsIndexed, IsDistinct}
use mcp_ironclaw.Spool.Naming.{next_name_fresh}
use mcp_ironclaw.Spool.Enqueue.{enqueue-IsIndexed}
use mcp_ironclaw.Spool.Budget.{IsRoom, enqueue-IsRoom}

abbrev pub disk : Disk Unit
disk = record {
  remove_file = λ p x. (x, none);
  open_file = λ p x. (x, none);
  write_file = λ p b x. (x, none);
  sync_file = λ p x. (x, none);
  close_file = λ p x. (x, none);
  rename_file = λ p q x. (x, none);
  sync_directory = λ x. (x, none);
  is_regular = λ p x. ok true;
  read_file = λ p x. ok [];
}

-- One entry of five bytes, in a budget of six.
abbrev pub one_entry : Spool
one_entry = record {
  max_bytes = 6;
  max_entries = 64;
  order = entry_name 1 1 ∷ [];
  sizes = (entry_name 1 1, 5) ∷ [];
  bytes = 5;
  seq = 1;
  enqueued = 1;
  dequeued = 0;
  dropped = 0;
  drop_failures = 0;
}

pub one_entry-IsIndexed : IsIndexed 12 one_entry
unfolding IsUnique IsDistinct find has
one_entry-IsIndexed = record {
  unique = (refl, tt);
  distinct = (refl, tt);
  same = λ n. ground arith;
  bytes = refl;
  small = omega arith;
}

next_name_fresh_example : find (next_name one_entry).1 one_entry.sizes ≡ none
next_name_fresh_example = next_name_fresh one_entry (omega arith)

-- Two bytes more do not fit: the entry is dropped.
enqueue-IsIndexed_example : IsIndexed 10 (enqueue disk (7 ∷ 8 ∷ []) (one_entry, tt)).0.0
enqueue-IsIndexed_example =
    enqueue-IsIndexed disk (7 ∷ 8 ∷ []) 10 one_entry tt (omega arith) one_entry-IsIndexed

enqueue-IsRoom_example : IsRoom 0 one_entry (enqueue disk (7 ∷ 8 ∷ []) (one_entry, tt)).0.0
enqueue-IsRoom_example =
    enqueue-IsRoom disk (7 ∷ 8 ∷ []) 10 one_entry tt (omega arith) (omega arith) (omega arith)
      one_entry-IsIndexed
