-- ===== src/Spool.antt =====
-- internal/spool/spool.go: batches that wait on disk. The disk is a component of its own, a record of
-- the operations that the code uses, each on a world; a path is the name of a file in the directory.
-- The mutex is left out, since a method holds it from its first read of the state to its last write.
pub mod Names
pub mod Files
pub mod Index
pub mod Naming
pub mod Parsing
pub mod Opening
pub mod Ordering
pub mod Recovering
pub mod Opened
pub mod Reopening
mod OpeningExamples
pub mod Enqueue
pub mod Budget
pub mod Trimming
pub mod Stored
pub mod Front
pub mod Peeking
pub mod Examples
use mcp_ironclaw.Prelude.{
  ℕ, zero, suc, ◌+◌, ◌*◌, ◌/◌, Bool, true, false, not, ◌&&◌, ◌||◌, Option, none, some, List, [],
  ◌∷◌, ◌++◌, leb, ◌==◌, if◌then◌else◌, length,
}
use mcp_ironclaw.Go.Int64.{add64, sub64, slt, is_negative, is_positive}
use mcp_ironclaw.Go.Text.{Text, codes, text_eq, is_empty}
use mcp_ironclaw.Go.Map.{Map, find, put, remove, string_eq}
use mcp_ironclaw.Domain.Errors.{
  Error, Result, ok, err, spool_empty, too_large, empty_payload, too_many, invalid_name,
  is_not_exist,
}
use mcp_ironclaw.Spool.Names.{entry_name}
use mcp_ironclaw.Spool.Files.{Disk, publish_file}

abbrev pub min_budget_per_entry : ℕ
min_budget_per_entry = 1024

abbrev pub min_entries : ℕ
min_entries = 64

pub record Spool : Type 0 where
  pub max_bytes : ℕ  -- int64
  pub max_entries : ℕ  -- int
  pub order : List Text
  pub sizes : Map Text ℕ
  pub bytes : ℕ
  pub seq : ℕ  -- uint64
  pub enqueued : ℕ  -- int64
  pub dequeued : ℕ
  pub dropped : ℕ
  pub drop_failures : ℕ

-- The ceiling on the entries that `Open` derives from the budget.
abbrev pub max_entries_of : ℕ → ℕ
max_entries_of max_bytes =
    let entries = max_bytes / min_budget_per_entry in
    if slt entries min_entries then min_entries else entries

abbrev pub has_slash : Text → Bool
has_slash [] = false
has_slash (b ∷ s) = b == b'/' || has_slash s

-- filepath.Base(name) != name || name == "." || name == "/"
unfoldable pub is_unsafe : Text → Bool
is_unsafe name = is_empty name || has_slash name || text_eq name (codes ".")

-- The loop of `removeLocked`: the first entry of that name goes.
unfoldable pub remove_first : Text → List Text → List Text
remove_first name [] = []
remove_first name (n ∷ ns) =
    let rest = remove_first name ns in if text_eq n name then ns else n ∷ rest

-- s.bytes -= size, not below zero
abbrev pub less_bytes : ℕ → ℕ → ℕ
less_bytes bytes size = let left = sub64 bytes size in if is_negative left then 0 else left

-- The end of `removeLocked`, once the file is gone.
unfoldable pub forget_entry : Text → Spool → Spool
forget_entry name s = elim (find name s.sizes) [
  | none ↦ s
  | some size ↦ record s {
    bytes = less_bytes s.bytes size;
    sizes = remove name s.sizes;
    order = remove_first name s.order;
  }
]

abbrev pub ignore_missing : Option Error → Option Error
ignore_missing none = none
ignore_missing (some e) = if is_not_exist e then none else some e

abbrev pub count_dropped : Spool → Spool
count_dropped s = record s { dropped = add64 s.dropped 1 }

module _ {W : Type 0} (d : Disk W) where
  -- removeLocked
  unfoldable pub remove_locked : Text → Spool × W → (Spool × W) × Option Error
  remove_locked name (s, x) =
      let (x', failure) = d.remove_file name x in
      if is_unsafe name then ((s, x), some invalid_name) else elim (ignore_missing failure) [
        | some e ↦ ((s, x'), some e)
        | none ↦ ((forget_entry name s, x'), none)
      ]

  -- One round of a loop that drops the oldest entry, and whether the loop goes on.
  unfoldable pub drop_oldest : Text → Spool × W → (Spool × W) × Bool
  drop_oldest name (s, x) =
      let (state, failure) = remove_locked name (s, x) in
      elim failure [
        | none ↦ ((count_dropped state.0, state.1), true)
        | some e ↦
            ((record (state.0) { drop_failures = add64 state.0.drop_failures 1 }, state.1), false)
      ]

  -- The loop of `Enqueue` that makes room for a payload, in at most so many rounds.
  unfoldable pub make_room : ℕ → ℕ → Spool × W → Spool × W
  make_room zero size state = state
  make_room (suc n) size (s, x) = elim (s.order) [
    | [] ↦ (s, x)
    | name ∷ names ↦
        let (state, go_on) = drop_oldest name (s, x) in
        let rest = make_room n size state in
        if slt s.max_bytes (add64 s.bytes size) then if go_on then rest else state else (s, x)
  ]

-- nextName: the first name after the current sequence number that no entry has. It is found within
-- one round more than there are entries.
unfoldable pub next_seq : ℕ → ℕ → ℕ → Map Text ℕ → ℕ
next_seq zero ordinal seq sizes = add64 seq 1
next_seq (suc n) ordinal seq sizes =
    let next = add64 seq 1 in
    let later = next_seq n ordinal next sizes in
    elim (find (entry_name ordinal next) sizes) [ none ↦ next | some _ ↦ later ]

unfoldable pub next_name : Spool → Spool × Text
next_name s =
    let ordinal = add64 s.enqueued 1 in
    let seq = next_seq (length s.sizes) ordinal s.seq s.sizes in
    (record s { seq = seq }, entry_name ordinal seq)

-- The entry in the index, once its file has its final name.
abbrev pub add_entry : Text → ℕ → Spool → Spool
add_entry name size s = record s {
  order = s.order ++ name ∷ [];
  sizes = put name size s.sizes;
  bytes = add64 s.bytes size;
  enqueued = add64 s.enqueued 1;
}

module _ {W : Type 0} (d : Disk W) where
  -- The end of `Enqueue`, from the name on.
  unfoldable pub store_entry : List ℕ → Spool × W → (Spool × W) × Option Error
  store_entry payload (s, x) =
      let (s', name) = next_name s in
      let (x', failure) = publish_file d name payload x in
      elim failure [
        | some e ↦ ((s', x'), some e)
        | none ↦
            let (x'', result) = d.sync_directory x' in
            ((add_entry name (length payload) s', x''), result)
      ]

  -- `Enqueue` once there is room, or nothing is left to drop.
  unfoldable pub enqueue_in : List ℕ → Spool × W → (Spool × W) × Option Error
  enqueue_in payload (s, x) =
      if leb s.max_entries (length s.order)
      then ((count_dropped s, x), some too_many)
      else store_entry payload (s, x)

  unfoldable pub enqueue : List ℕ → Spool × W → (Spool × W) × Option Error
  enqueue payload (s, x) =
      let size = length payload in
      if size == 0
      then ((s, x), some empty_payload)
      else if slt s.max_bytes size
      then ((count_dropped s, x), some too_large)
      else enqueue_in payload (make_room d (length s.order) size (s, x))

  abbrev pub drop_missing : Text → Error → Spool × W → (Spool × W) × Result (List ℕ × Text)
  drop_missing name e state =
      let (state', failure) = remove_locked d name state in
      (if is_not_exist e then state' else state, err e)

  unfoldable pub peek_entry : Text → Spool × W → (Spool × W) × Result (List ℕ × Text)
  peek_entry name (s, x) = elim (d.is_regular name x) [
    | err e ↦ drop_missing name e (s, x)
    | ok regular ↦
        let answer = elim (d.read_file name x) as (λ _. (Spool × W) × Result (List ℕ × Text)) [
          | err e ↦ drop_missing name e (s, x)
          | ok payload ↦ ((s, x), ok (payload, name))
        ] in
        if regular then answer else ((remove_locked d name (s, x)).0, err invalid_name)
  ]

  unfoldable pub peek : Spool × W → (Spool × W) × Result (List ℕ × Text)
  peek (s, x) = elim (s.order) [
    | [] ↦ ((s, x), err spool_empty)
    | name ∷ names ↦ peek_entry name (s, x)
  ]

  -- Release
  unfoldable pub release_entry : Text → Spool × W → (Spool × W) × Option Error
  release_entry name (s, x) =
      let (state, failure) = remove_locked d name (s, x) in
      elim (find name s.sizes) [
        | none ↦ ((s, x), none)
        | some size ↦ elim failure [
          | some e ↦ (state, some e)
          | none ↦ ((record (state.0) { dequeued = add64 state.0.dequeued 1 }, state.1), none)
        ]
      ]

  -- trimToBudget
  unfoldable pub trim_to_budget : ℕ → Spool × W → Spool × W
  trim_to_budget zero state = state
  trim_to_budget (suc n) (s, x) = elim (s.order) [
    | [] ↦ (s, x)
    | name ∷ names ↦
        let (state, go_on) = drop_oldest d name (s, x) in
        let rest = trim_to_budget n state in
        if slt s.max_bytes s.bytes || not (leb (length s.order) s.max_entries)
        then if go_on then rest else state
        else (s, x)
  ]
