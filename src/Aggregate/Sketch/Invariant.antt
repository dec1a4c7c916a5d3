-- ===== src/Aggregate/Sketch/Invariant.antt =====
-- What holds of every sketch of internal/aggregate/sketch.go: its count is that of its buckets, and the
-- sorted indexes that it keeps are those of its buckets, unless they are stale.
use mcp_ironclaw.Prelude.{
  ◌==◌, List-cases, ◌∙◌, ℕ, ◌≡◌, refl, ap, sym, inl, inr, ◌⊎◌, true, some, [], ◌∷◌, arith,
  Option-cases, Bool-cases,
}
use mcp_ironclaw.Go.Int64.{add64, slt, is_positive}
use mcp_ironclaw.Go.Map.{
  get_or, Map, find, put, nat_eq, total, total-put_new, total-put_old, total-lt,
}
use mcp_ironclaw.Go.Map.Entries.{keys}
use mcp_ironclaw.Go.Sort.{sort_by}
use mcp_ironclaw.Domain.Errors.{ok}
use mcp_ironclaw.Aggregate.Sketch.{
  rank_of, is_invalid, count_value, get_or, Sketch, FloatMath, bucket, add_to_bucket, add, index,
  sorted_indexes, merge_buckets, merge_counts, merge, quantile, new_sketch, clone,
}

abbrev same_count : ℕ → ℕ
same_count n = n

-- The values in the buckets, as an int64.
abbrev pub held : Map ℕ ℕ → ℕ
held m = total same_count m

abbrev pub IsCached : {F : Type 0} → Sketch F → Type 0
IsCached s = (s.sorted_stale ≡ true) ⊎ ((s.sorted ≡ []) ⊎ (s.sorted ≡ sort_by slt (keys s.buckets)))

-- The count is that of the values in the buckets and those below zero, and the cache is good.
pub record IsSketch {F : Type 0} (s : Sketch F) : Type 0 where
  pub counted : add64 s.count 0 ≡ add64 s.zero_count (held s.buckets)
  pub cached : IsCached s

put-keys : (i v w : ℕ) (m : Map ℕ ℕ) → find i m ≡ some w → keys (put i v m) ≡ keys m
unfolding find put
put-keys i v w [] h = cc
put-keys i v w ((j, u) ∷ m) h = ground (arith, put-keys i v w m)

add_to_bucket-held :
    (i n : ℕ) (m : Map ℕ ℕ) → held (put i (add64 (bucket i m) n) m) ≡ add64 n (held m)
unfolding get_or
add_to_bucket-held i n m = elim (Option-cases (find i m)) [
  | inl e ↦ ground (arith, total-put_new same_count i (add64 0 n) m e, total-lt same_count m)
  | inr (w, e) ↦ ground (
    arith,
    total-put_old same_count i (add64 w n) w m e,
    total-lt same_count m,
    total-lt same_count (put i (add64 w n) m),
  )
]

module _ {F : Type 0} where
  added-IsCached : (i n : ℕ) (s : Sketch F) → IsCached s → IsCached (add_to_bucket i n s)
  added-IsCached i n s h = elim (Option-cases (find i s.buckets)) [
    | inl e ↦ inl (ground arith)
    | inr (w, e) ↦ elim h [
      | inl stale ↦ inl (ground arith)
      | inr (inl none_yet) ↦ inr (inl none_yet)
      | inr (inr same) ↦ inr (
          inr (
            same
            ∙ ap (sort_by slt) (sym (put-keys i (add64 (bucket i s.buckets) n) w s.buckets e))))
    ]
  ]

  merge_buckets-held :
      (m : Map ℕ ℕ) (s : Sketch F)
      → held (merge_buckets m s).buckets ≡ add64 (held m) (held s.buckets)
  unfolding merge_buckets total
  merge_buckets-held [] s = ground (arith, total-lt same_count s.buckets)
  merge_buckets-held ((i, n) ∷ m) s =
      ground (arith, merge_buckets-held m (add_to_bucket i n s), add_to_bucket-held i n s.buckets)

  merge_buckets-counts :
      (m : Map ℕ ℕ) (s : Sketch F)
      → ((merge_buckets m s).count ≡ s.count) × ((merge_buckets m s).zero_count ≡ s.zero_count)
  unfolding merge_buckets
  merge_buckets-counts [] s = (refl, refl)
  merge_buckets-counts ((i, n) ∷ m) s = merge_buckets-counts m (add_to_bucket i n s)

  merge_buckets-IsCached : (m : Map ℕ ℕ) (s : Sketch F) → IsCached s → IsCached (merge_buckets m s)
  unfolding merge_buckets
  merge_buckets-IsCached [] s h = h
  merge_buckets-IsCached ((i, n) ∷ m) s h =
      merge_buckets-IsCached m (add_to_bucket i n s) (added-IsCached i n s h)

  -- The sorted indexes of a good cache are those of the buckets, and so is the cache afterwards.
  pub sorted_indexes_lem :
      (s : Sketch F)
      → IsCached s
      → ((sorted_indexes s).1 ≡ sort_by slt (keys s.buckets)) × IsCached (sorted_indexes s).0
  unfolding sorted_indexes
  sorted_indexes_lem s h = elim (List-cases s.sorted) [
    | inl e ↦ rw (sorted_indexes, e) (refl, inr (inr refl))
    | inr (i, is, e) ↦ elim (Bool-cases s.sorted_stale) [
      | inl b ↦ rw (sorted_indexes, e, b) (refl, inr (inr refl))
      | inr b ↦
          rw (sorted_indexes, e, b) (ground (arith, h, e, b), inr (inr (ground (arith, h, e, b))))
    ]
  ]

  pub sorted_indexes_kept :
      (s : Sketch F)
      → ((sorted_indexes s).0.count ≡ s.count)
        × ((sorted_indexes s).0.zero_count ≡ s.zero_count)
        × ((sorted_indexes s).0.buckets ≡ s.buckets)
        × ((sorted_indexes s).0.max ≡ s.max)
        × ((sorted_indexes s).0.gamma ≡ s.gamma)
  unfolding sorted_indexes
  sorted_indexes_kept s = ground arith

  sorted_indexes-IsSketch : (s : Sketch F) → IsSketch s → IsSketch (sorted_indexes s).0
  sorted_indexes-IsSketch s h =
      let (c, z, b, _, _) = sorted_indexes_kept s in
      record {
        counted = ground (arith, h.counted, c, z, ap held b);
        cached = (sorted_indexes_lem s h.cached).1;
      }

  merge_counts-IsSketch :
      (other s : Sketch F)
      → IsSketch other
      → IsSketch s
      → IsSketch (merge_counts other (merge_buckets other.buckets s))
  merge_counts-IsSketch other s o h =
      let counts = merge_buckets-counts other.buckets s in
      record {
        counted = ground (arith, o.counted, h.counted, counts, merge_buckets-held other.buckets s);
        cached = merge_buckets-IsCached other.buckets s h.cached;
      }

module _ (f : FloatMath) where
  open f use {Float}

  add-IsSketch : (v : ℕ) (s : Sketch Float) → IsSketch s → IsSketch (add f v s)
  unfolding add
  add-IsSketch v s h = elim (Bool-cases (is_positive v)) [
    | inl e ↦
        rw (add, e)
          (record {
            counted = ground (arith, h.counted, add_to_bucket-held (index f s v) 1 s.buckets);
            cached = added-IsCached (index f s v) 1 (count_value v s) h.cached;
          })
    | inr e ↦ rw (add, e) (record { counted = ground (arith, h.counted); cached = h.cached })
  ]

  -- The operations on a sketch, one after the other.
  pub data Step : Sketch Float → Sketch Float → Type 0 where
    added : (v : ℕ) (s : Sketch Float) → Step s (add f v s)
    asked : (q : Float) (s : Sketch Float) → Step s (quantile f q s).0
    merged : (other s : Sketch Float) → IsSketch other → Step s (merge f other s).0
    cloned : (s : Sketch Float) → Step s (clone s)

  quantile-IsSketch : (q : Float) (s : Sketch Float) → IsSketch s → IsSketch (quantile f q s).0
  unfolding quantile
  quantile-IsSketch q s h = elim (Bool-cases (is_invalid f q)) [
    | inl a ↦ rw (quantile, a) h
    | inr a ↦ elim (Bool-cases (s.count == 0)) [
      | inl b ↦ rw (quantile, a, b) h
      | inr b ↦ elim (Bool-cases (slt (rank_of f q s) s.zero_count)) [
        | inl c ↦ rw (quantile, a, b, c) h
        | inr c ↦ rw (quantile, a, b, c) (sorted_indexes-IsSketch s h)
      ]
    ]
  ]

  merge-IsSketch :
      (other s : Sketch Float) → IsSketch other → IsSketch s → IsSketch (merge f other s).0
  unfolding merge
  merge-IsSketch other s o h =
      elim (Bool-cases (f.same other.relative_accuracy s.relative_accuracy)) [
        | inr a ↦ rw (merge, a) h
        | inl a ↦ elim (Bool-cases (other.count == 0)) [
          | inl b ↦ rw (merge, a, b) h
          | inr b ↦ rw (merge, a, b) (merge_counts-IsSketch other s o h)
        ]
      ]

  Step-IsSketch : (s t : Sketch Float) → Step s t → IsSketch s → IsSketch t
  unfolding clone
  Step-IsSketch s _ (added v _) h = add-IsSketch v s h
  Step-IsSketch s _ (asked q _) h = quantile-IsSketch q s h
  Step-IsSketch s _ (merged other _ o) h = merge-IsSketch other s o h
  Step-IsSketch s _ (cloned _) h = record { counted = h.counted; cached = inr (inl refl) }

  pub data Reachable : Sketch Float → Type 0 where
    made : (a : Float) (s : Sketch Float) → new_sketch f a ≡ ok s → Reachable s
    next : (s t : Sketch Float) → Reachable s → Step s t → Reachable t

  new_sketch-IsSketch : (a : Float) (s : Sketch Float) → new_sketch f a ≡ ok s → IsSketch s
  unfolding new_sketch total
  new_sketch-IsSketch a s e = record { counted = ground arith; cached = inr (inl (ground arith)) }

  -- Whatever is added to a new sketch, asked of it, or merged into it: its count is that of the values
  -- in its buckets and of those that are not positive, as an int64, and the sorted indexes that it keeps
  -- are those of its buckets, unless they are marked as stale.
  pub Reachable-IsSketch : (s : Sketch Float) → Reachable s → IsSketch s
  Reachable-IsSketch s (made a _ e) = new_sketch-IsSketch a s e
  Reachable-IsSketch s (next r _ h step) = Step-IsSketch r s step (Reachable-IsSketch r h)
