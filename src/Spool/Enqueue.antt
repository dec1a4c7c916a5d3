-- ===== src/Spool/Enqueue.antt =====
-- `Enqueue` of internal/spool/spool.go keeps the index and the budget.
use mcp_ironclaw.Prelude.{
  ◌==◌, leb, Option, ◌<◌, length, List-cases, if_both, ℕ, zero, suc, ◌+◌, ◌≡◌, refl, sym, ◌∙◌, ap,
  subst, inl, inr, false, ◌||◌, none, List, [], ◌∷◌, ◌++◌, arith, Option-cases, Bool-cases,
  if◌then◌else◌,
}
use mcp_ironclaw.Go.Int64.{modulus, slt, add64}
use mcp_ironclaw.Go.Text.{Text, text_eq, text_eq_iff}
use mcp_ironclaw.Go.Map.{length-remove-le, find, find-put, string_eq, IsUnique, put-IsUnique}
use mcp_ironclaw.Go.Map.Entries.{has}
use mcp_ironclaw.Spool.{
  Error, count_dropped, enqueue_in, release_entry, enqueue, store_entry, forget_entry, Spool,
  remove_locked, drop_oldest, make_room, is_unsafe, ignore_missing, next_name, add_entry,
}
use mcp_ironclaw.Spool.Files.{publish_file, Disk}
use mcp_ironclaw.Spool.Naming.{next_name_fresh}
use mcp_ironclaw.Spool.Index.{IsIndexed, IsDistinct, stored-put, is_some, forget_entry-IsIndexed}

-- The index says nothing of the counters and the sequence number.
pub recount :
    (room : ℕ) (s s' : Spool)
    → s'.order ≡ s.order
    → s'.sizes ≡ s.sizes
    → s'.bytes ≡ s.bytes
    → IsIndexed room s
    → IsIndexed room s'
recount room s s' o z b x = record {
  unique = subst IsUnique (sym z) x.unique;
  distinct = subst IsDistinct (sym o) x.distinct;
  same = λ n. ground (arith, x.same n);
  bytes = ground (arith, x.bytes);
  small = ground (arith, x.small);
}

pub weaken : (more room : ℕ) (s : Spool) → IsIndexed (more + room) s → IsIndexed room s
weaken more room s x = record {
  unique = x.unique;
  distinct = x.distinct;
  same = x.same;
  bytes = x.bytes;
  small = omega (arith, x.small);
}

has-snoc : (n k : Text) (ns : List Text) → has n (ns ++ k ∷ []) ≡ (has n ns || text_eq k n)
unfolding has
has-snoc n k [] = ground arith
has-snoc n k (j ∷ ns) = ground (arith, has-snoc n k ns)

pub snoc-IsDistinct :
    (k : Text) (ns : List Text) → has k ns ≡ false → IsDistinct ns → IsDistinct (ns ++ k ∷ [])
unfolding IsDistinct has
snoc-IsDistinct k [] h u = (refl, tt)
snoc-IsDistinct k (n ∷ ns) h u =
    ground (arith, snoc-IsDistinct k ns, has-snoc n k ns, text_eq_iff n k, text_eq_iff k n)

module _ {W : Type 0} (d : Disk W) where
  pub remove_locked-IsIndexed :
      (room : ℕ) (name : Text) (s : Spool) (x : W)
      → IsIndexed room s
      → IsIndexed room (remove_locked d name (s, x)).0.0
  unfolding remove_locked
  remove_locked-IsIndexed room name s x h = elim (Bool-cases (is_unsafe name)) [
    | inl u ↦ rw (u, remove_locked) h
    | inr u ↦ elim (Option-cases (ignore_missing (d.remove_file name x).1)) [
      | inr (e, f) ↦ rw (u, remove_locked, f) h
      | inl f ↦ rw (u, remove_locked, f) (forget_entry-IsIndexed room name s h)
    ]
  ]

  pub drop_oldest-IsIndexed :
      (room : ℕ) (name : Text) (s : Spool) (x : W)
      → IsIndexed room s
      → IsIndexed room (drop_oldest d name (s, x)).0.0
  unfolding drop_oldest
  drop_oldest-IsIndexed room name s x h =
      let removed = remove_locked-IsIndexed room name s x h in
      elim (Option-cases (remove_locked d name (s, x)).1) [
        | inl e ↦
            rw (e, drop_oldest)
              (recount room (remove_locked d name (s, x)).0.0 _ refl refl refl removed)
        | inr (f, e) ↦
            rw (e, drop_oldest)
              (recount room (remove_locked d name (s, x)).0.0 _ refl refl refl removed)
      ]

  make_room-IsIndexed :
      (n size room : ℕ) (s : Spool) (x : W)
      → IsIndexed room s
      → IsIndexed room (make_room d n size (s, x)).0
  unfolding make_room
  make_room-IsIndexed zero size room s x h = h
  make_room-IsIndexed (suc n) size room s x h = elim (List-cases s.order) [
    | inl e ↦ rw (e, make_room) h
    | inr (name, names, e) ↦
        let dropped = drop_oldest-IsIndexed room name s x h in
        let (state, go_on) = drop_oldest d name (s, x) in
        let P : Spool × W → Type 0 = λ r. IsIndexed room r.0 in
        rw (e, make_room)
          (if_both P (slt s.max_bytes (add64 s.bytes size))
            (if go_on then make_room d n size state else state) (s, x)
            (if_both P go_on (make_room d n size state) state
              (make_room-IsIndexed n size room state.0 state.1 dropped) dropped)
            h)
  ]

  -- Dropping entries leaves room for names.
  abbrev HasNames : Spool → Type 0
  HasNames s = s.seq + length s.sizes + 1 < modulus

  remove_locked-HasNames :
      (name : Text) (s : Spool) (x : W) → HasNames s → HasNames (remove_locked d name (s, x)).0.0
  unfolding remove_locked forget_entry
  remove_locked-HasNames name s x h = ground (arith, length-remove-le name s.sizes)

  drop_oldest-HasNames :
      (name : Text) (s : Spool) (x : W) → HasNames s → HasNames (drop_oldest d name (s, x)).0.0
  unfolding drop_oldest
  drop_oldest-HasNames name s x h = ground (arith, remove_locked-HasNames name s x h)

  make_room-HasNames :
      (n size : ℕ) (s : Spool) (x : W) → HasNames s → HasNames (make_room d n size (s, x)).0
  unfolding make_room
  make_room-HasNames zero size s x h = h
  make_room-HasNames (suc n) size s x h = elim (List-cases s.order) [
    | inl e ↦ rw (e, make_room) h
    | inr (name, names, e) ↦
        let dropped = drop_oldest-HasNames name s x h in
        let (state, go_on) = drop_oldest d name (s, x) in
        let P : Spool × W → Type 0 = λ r. HasNames r.0 in
        rw (e, make_room)
          (if_both P (slt s.max_bytes (add64 s.bytes size))
            (if go_on then make_room d n size state else state) (s, x)
            (if_both P go_on (make_room d n size state) state
              (make_room-HasNames n size state.0 state.1 dropped) dropped)
            h)
  ]

  next_name_kept :
      (s : Spool)
      → ((next_name s).0.order ≡ s.order)
        × ((next_name s).0.sizes ≡ s.sizes)
        × ((next_name s).0.bytes ≡ s.bytes)
  unfolding next_name
  next_name_kept s = (refl, refl, refl)

  pub add_entry-IsIndexed :
      (name : Text) (size room : ℕ) (s : Spool)
      → find name s.sizes ≡ none
      → IsIndexed (size + room) s
      → IsIndexed room (add_entry name size s)
  unfolding IsDistinct has
  add_entry-IsIndexed name size room s fresh h =
      let more = stored-put name size s.sizes fresh in
      record {
        unique = put-IsUnique name size s.sizes h.unique;
        distinct = snoc-IsDistinct name s.order (h.same name ∙ ap is_some fresh) h.distinct;
        same = λ n. ground (
          arith,
          has-snoc n name s.order,
          find-put name n size s.sizes,
          h.same n,
          text_eq_iff name n,
        );
        bytes = omega (arith, more, h.bytes, h.small);
        small = omega (arith, more, h.small);
      }

  store_entry-IsIndexed :
      (payload : List ℕ) (room : ℕ) (s : Spool) (x : W)
      → HasNames s
      → IsIndexed (length payload + room) s
      → IsIndexed room (store_entry d payload (s, x)).0.0
  unfolding store_entry next_name
  store_entry-IsIndexed payload room s x names h =
      let (s', name) = next_name s in
      let named = recount (length payload + room) s s' refl refl refl h in
      elim (Option-cases (publish_file d name payload x).1) [
        | inr (e, f) ↦ rw (f, store_entry) (weaken (length payload) room s' named)
        | inl f ↦
            rw (f, store_entry)
              (add_entry-IsIndexed name (length payload) room s' (next_name_fresh s names) named)
      ]

  -- Whatever the disk answers, `Enqueue` keeps the index: every entry stands once in the order and
  -- once in the sizes, and the byte count is the sum of the sizes; as long as the payload and the
  -- entries stay within the range of the byte count, and the sequence numbers do not wrap around.
  pub enqueue-IsIndexed :
      (payload : List ℕ) (room : ℕ) (s : Spool) (x : W)
      → s.seq + length s.sizes + 1 < modulus
      → IsIndexed (length payload + room) s
      → IsIndexed room (enqueue d payload (s, x)).0.0
  unfolding enqueue enqueue_in
  enqueue-IsIndexed payload room s x names h =
      let size = length payload in
      let made = make_room d (length s.order) size (s, x) in
      let indexed = make_room-IsIndexed (length s.order) size (size + room) s x h in
      let named = make_room-HasNames (length s.order) size s x names in
      let refused = recount room s (count_dropped s) refl refl refl (weaken size room s h) in
      let full =
        recount room made.0 (count_dropped made.0) refl refl refl
          (weaken size room made.0 indexed) in
      let P : (Spool × W) × Option Error → Type 0 = λ r. IsIndexed room r.0.0 in
      if_both P (size == 0) _ _ (weaken size room s h) (
        if_both P (slt s.max_bytes size) _ _ refused (
          if_both P (leb made.0.max_entries (length made.0.order)) _ _ full
            (store_entry-IsIndexed payload room made.0 made.1 named indexed)))

  -- So does `Release`, which also frees the bytes of its entry.
  pub release_entry-IsIndexed :
      (name : Text) (room : ℕ) (s : Spool) (x : W)
      → IsIndexed room s
      → IsIndexed room (release_entry d name (s, x)).0.0
  unfolding release_entry
  release_entry-IsIndexed name room s x h =
      let removed = remove_locked-IsIndexed room name s x h in
      let state = (remove_locked d name (s, x)).0 in
      elim (Option-cases (find name s.sizes)) [
        | inl e ↦ rw (e, release_entry) h
        | inr (size, e) ↦ elim (Option-cases (remove_locked d name (s, x)).1) [
          | inr (y, f) ↦ rw (e, release_entry, f) removed
          | inl f ↦ rw (e, release_entry, f) (recount room state.0 _ refl refl refl removed)
        ]
      ]
