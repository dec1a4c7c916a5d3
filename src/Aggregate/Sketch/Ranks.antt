-- ===== src/Aggregate/Sketch/Ranks.antt =====
-- `Quantile` of internal/aggregate/sketch.go against a reference: the list of all values, each as the
-- value of its bucket, in the order of the buckets.
use mcp_ironclaw.Prelude.{
  ◌≢◌, ℕ, zero, suc, ◌+◌, ◌-◌, ◌≤◌, ◌<◌, ◌≡◌, refl, ap, sym, ◌∙◌, inl, inr, false, List, [], ◌∷◌,
  ◌++◌, arith, Bool-cases, ◌==◌,
}
use mcp_ironclaw.Go.Int64.{add64, slt, sign_bit}
use mcp_ironclaw.Go.Map.Entries.{keys}
use mcp_ironclaw.Go.Sort.{sort_by}
use mcp_ironclaw.Domain.Errors.{ok}
use mcp_ironclaw.Aggregate.Sketch.{
  Sketch, FloatMath, bucket, value, quantile_from, quantile, rank_of, is_invalid, sorted_indexes,
}
use mcp_ironclaw.Aggregate.Sketch.Invariant.{IsCached, sorted_indexes_lem, sorted_indexes_kept}

-- A value so many times.
unfoldable pub repeat : ℕ → ℕ → List ℕ
repeat zero v = []
repeat (suc n) v = v ∷ repeat n v

-- The element at this place, or else a default.
unfoldable pub element : ℕ → List ℕ → ℕ → ℕ
element n [] default = default
element zero (x ∷ xs) default = x
element (suc n) (x ∷ xs) default = element n xs default

element-repeat_in : (n k v d : ℕ) (xs : List ℕ) → n < k → element n (repeat k v ++ xs) d ≡ v
unfolding element repeat
element-repeat_in n zero v d xs h = absurd (omega arith)
element-repeat_in zero (suc k) v d xs h = refl
element-repeat_in (suc n) (suc k) v d xs h = element-repeat_in n k v d xs (omega arith)

element-repeat_after :
    (n k v d : ℕ) (xs : List ℕ) → element (k + n) (repeat k v ++ xs) d ≡ element n xs d
unfolding element repeat
element-repeat_after n zero v d xs = ap (λ m. element m xs d) (omega arith)
element-repeat_after n (suc k) v d xs =
    let same : suc k + n ≡ suc (k + n) = omega arith in rw same (element-repeat_after n k v d xs)

module _ (f : FloatMath) where
  open f use {Float}

  -- The values of these buckets.
  unfoldable pub values_of : List ℕ → Sketch Float → List ℕ
  values_of [] s = []
  values_of (i ∷ is) s = repeat (bucket i s.buckets) (value f s i) ++ values_of is s

  -- The values in these buckets.
  abbrev pub in_buckets : List ℕ → Sketch Float → ℕ
  in_buckets [] s = 0
  in_buckets (i ∷ is) s = bucket i s.buckets + in_buckets is s

  -- All values: those that are not positive as zero, the others as the values of their buckets, from
  -- the lowest bucket to the highest.
  abbrev pub all_values : Sketch Float → List ℕ
  all_values s = repeat s.zero_count 0 ++ values_of (sort_by slt (keys s.buckets)) s

  quantile_from_lem :
      (rank cumulative : ℕ) (is : List ℕ) (s : Sketch Float)
      → cumulative + in_buckets is s < sign_bit
      → rank < sign_bit
      → cumulative ≤ rank
      → quantile_from f rank cumulative is s ≡ element (rank - cumulative) (values_of is s) s.max
  unfolding quantile_from values_of element
  quantile_from_lem rank c [] s b r h = refl
  quantile_from_lem rank c (i ∷ is) s b r h =
      elim (Bool-cases (slt rank (add64 c (bucket i s.buckets)))) [
        | inl e ↦
            rw (quantile_from, e)
              (sym (
                element-repeat_in (rank - c) (bucket i s.buckets) (value f s i) s.max
                  (values_of is s) (ground arith)))
        | inr e ↦
            let n = bucket i s.buckets in
            let plain : add64 c n ≡ c + n = omega arith in
            let reached : c + n ≤ rank = ground (arith, e, plain) in
            let split : rank - c ≡ n + (rank - (c + n)) = omega (arith, reached) in
            let rest = quantile_from_lem rank (c + n) is s (omega arith) r reached in
            rw (quantile_from, e, plain, split)
              (rest
                ∙ sym
                    (element-repeat_after (rank - (c + n)) n (value f s i) s.max (values_of is s)))
      ]

  value_same : (i : ℕ) (s t : Sketch Float) → t.gamma ≡ s.gamma → value f t i ≡ value f s i
  unfolding value
  value_same i s t h = rw h refl

  quantile_from_same :
      (rank cumulative : ℕ) (is : List ℕ) (s t : Sketch Float)
      → t.buckets ≡ s.buckets
      → t.max ≡ s.max
      → t.gamma ≡ s.gamma
      → quantile_from f rank cumulative is t ≡ quantile_from f rank cumulative is s
  unfolding quantile_from
  quantile_from_same rank c [] s t b m g = m
  quantile_from_same rank c (i ∷ is) s t b m g = ground (
    arith,
    b,
    value_same i s t g,
    quantile_from_same rank (add64 c (bucket i s.buckets)) is s t b m g,
  )

  -- A quantile of a sketch that holds values is the value at its rank among all values of the sketch, in
  -- order; when there are fewer values than the rank asks for, it is the maximum. The quantile must be a
  -- number from 0 to 1, the sorted indexes that the sketch keeps must be those of its buckets or stale, and
  -- its values and the rank must be in the range of an int64.
  pub quantile_lem :
      (q : Float) (s : Sketch Float)
      → IsCached s
      → is_invalid f q ≡ false
      → s.count ≢ 0
      → s.zero_count + in_buckets (sort_by slt (keys s.buckets)) s < sign_bit
      → rank_of f q s < sign_bit
      → (quantile f q s).1 ≡ ok (element (rank_of f q s) (all_values s) s.max)
  unfolding quantile
  quantile_lem q s cached valid some_values bound range =
      let rank = rank_of f q s in
      let later = values_of (sort_by slt (keys s.buckets)) s in
      let full : (s.count == 0) ≡ false = ground (arith, some_values) in
      elim (Bool-cases (slt rank s.zero_count)) [
        | inl c ↦
            rw (quantile, valid, full, c)
              (ap ok (
                sym (
                  element-repeat_in rank s.zero_count 0 s.max later
                    (ground (arith, c, bound, range)))))
        | inr c ↦
            let (_, _, b, m, g) = sorted_indexes_kept s in
            let past : s.zero_count ≤ rank = ground (arith, c, bound, range) in
            let split : rank ≡ s.zero_count + (rank - s.zero_count) = omega (arith, past) in
            rw (quantile, valid, full, c, (sorted_indexes_lem s cached).0)
              (ap ok (
                quantile_from_same rank s.zero_count (sort_by slt (keys s.buckets)) s
                  (sorted_indexes s).0 b m g
                ∙ quantile_from_lem rank s.zero_count (sort_by slt (keys s.buckets)) s bound range
                    past
                ∙ sym (
                    ap (λ n. element n (all_values s) s.max) split
                    ∙ element-repeat_after (rank - s.zero_count) s.zero_count 0 s.max later)))
      ]
