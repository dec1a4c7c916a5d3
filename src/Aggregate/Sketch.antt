-- ===== src/Aggregate/Sketch.antt =====
-- internal/aggregate/sketch.go: a sketch of quantiles. The floats and what `math` does with them are a
-- parameter. The buckets of a sketch are a map, and the nil slice is the empty list.
pub mod Invariant
pub mod Ranks
pub mod Interface
mod Examples
use mcp_ironclaw.Prelude.{
  ℕ, ◌+◌, ◌-◌, ◌^◌, Bool, true, false, not, ◌&&◌, ◌||◌, Option, none, some, List, [], ◌∷◌, ltb,
  ◌==◌, if◌then◌else◌,
}
use mcp_ironclaw.Go.Int64.{add64, sub64, slt, is_positive}
use mcp_ironclaw.Go.Map.{get_or, Map, find, put, nat_eq}
use mcp_ironclaw.Go.Map.Entries.{keys}
use mcp_ironclaw.Go.Sort.{sort_by}
use mcp_ironclaw.Domain.Errors.{
  Error, Result, ok, err, invalid_accuracy, accuracy_mismatch, invalid_quantile,
}

-- float64 and the functions of `math` that the sketch uses: `less` is `<`, `at_least` is `>=`, and `same`
-- is `==`, which are all false for a NaN.
pub record FloatMath : Type 1 where
  pub Float : Type 0
  pub zero : Float
  pub one : Float
  pub two : Float
  pub max_int : Float
  pub of_int : ℕ → Float
  pub to_int : Float → ℕ
  pub plus : Float → Float → Float
  pub minus : Float → Float → Float
  pub times : Float → Float → Float
  pub over : Float → Float → Float
  pub power : Float → Float → Float
  pub log : Float → Float
  pub ceil : Float → Float
  pub floor : Float → Float
  pub round : Float → Float
  pub less : Float → Float → Bool
  pub at_least : Float → Float → Bool
  pub same : Float → Float → Bool
  pub is_nan : Float → Bool

pub record Sketch (F : Type 0) : Type 0 where
  pub relative_accuracy : F
  pub gamma : F
  pub log_gamma : F
  pub buckets : Map ℕ ℕ  -- map[int]int64
  pub sorted : List ℕ
  pub sorted_stale : Bool
  pub zero_count : ℕ  -- int64
  pub count : ℕ
  pub max : ℕ
  pub min : ℕ

-- math.MaxInt64 and math.MinInt64
abbrev pub max_int64 : ℕ
max_int64 = 2 ^ 63 - 1

abbrev pub min_int64 : ℕ
min_int64 = 2 ^ 63

-- s.buckets[index], which is zero when the key is missing
abbrev pub bucket : ℕ → Map ℕ ℕ → ℕ
bucket i m = get_or i m 0

abbrev is_missing : ℕ → Map ℕ ℕ → Bool
is_missing i m = elim (find i m) [ none ↦ true | some n ↦ false ]

module _ {F : Type 0} where
  unfoldable pub max_of : Sketch F → ℕ
  max_of s = if s.count == 0 then 0 else s.max

  unfoldable pub min_of : Sketch F → ℕ
  min_of s = if s.count == 0 then 0 else s.min

  -- Some more in a bucket; the indexes are stale when it is new.
  abbrev pub add_to_bucket : ℕ → ℕ → Sketch F → Sketch F
  add_to_bucket i n s = record s {
    sorted_stale = is_missing i s.buckets || s.sorted_stale;
    buckets = put i (add64 (bucket i s.buckets) n) s.buckets;
  }

  -- What `Add` does before it looks at the bucket.
  abbrev pub count_value : ℕ → Sketch F → Sketch F
  count_value value s = record s {
    count = add64 s.count 1;
    max = if slt s.max value then value else s.max;
    min = if slt value s.min then value else s.min;
  }

  -- sortedIndexes
  unfoldable pub sorted_indexes : Sketch F → Sketch F × List ℕ
  sorted_indexes s =
      let indexes = sort_by slt (keys s.buckets) in
      let fresh : Sketch F × List ℕ =
        (record s { sorted = indexes; sorted_stale = false }, indexes) in
      elim (s.sorted) [ [] ↦ fresh | i ∷ is ↦ if s.sorted_stale then fresh else (s, i ∷ is) ]

  -- The loop of `Merge` over the buckets of the other sketch.
  unfoldable pub merge_buckets : Map ℕ ℕ → Sketch F → Sketch F
  merge_buckets [] s = s
  merge_buckets ((i, n) ∷ m) s = merge_buckets m (add_to_bucket i n s)

  -- The end of `Merge`.
  abbrev pub merge_counts : Sketch F → Sketch F → Sketch F
  merge_counts other s = record s {
    zero_count = add64 s.zero_count other.zero_count;
    count = add64 s.count other.count;
    max = if slt s.max other.max then other.max else s.max;
    min = if slt other.min s.min then other.min else s.min;
  }

  unfoldable pub clone : Sketch F → Sketch F
  clone s = record s { sorted = []; sorted_stale = false }

module _ (f : FloatMath) where
  open f use {Float}

  unfoldable pub new_sketch : Float → Result (Sketch Float)
  new_sketch accuracy =
      let gamma = f.over (f.plus f.one accuracy) (f.minus f.one accuracy) in
      if f.at_least f.zero accuracy || f.at_least accuracy f.one
      then err invalid_accuracy
      else ok (record {
        relative_accuracy = accuracy;
        gamma = gamma;
        log_gamma = f.log gamma;
        buckets = [];
        sorted = [];
        sorted_stale = false;
        zero_count = 0;
        count = 0;
        max = min_int64;
        min = max_int64;
      })

  abbrev pub index : Sketch Float → ℕ → ℕ
  index s value = f.to_int (f.ceil (f.over (f.log (f.of_int value)) s.log_gamma))

  abbrev pub estimate : Sketch Float → ℕ → Float
  estimate s i =
      f.round (f.over (f.times f.two (f.power s.gamma (f.of_int i))) (f.plus f.one s.gamma))

  unfoldable pub value : Sketch Float → ℕ → ℕ
  value s i = if f.at_least (estimate s i) f.max_int then max_int64 else f.to_int (estimate s i)

  unfoldable pub add : ℕ → Sketch Float → Sketch Float
  add v s =
      let counted = count_value v s in
      if is_positive v
      then add_to_bucket (index s v) 1 counted
      else record counted { zero_count = add64 s.zero_count 1 }

  unfoldable pub merge : Sketch Float → Sketch Float → Sketch Float × Option Error
  merge other s =
      if not (f.same other.relative_accuracy s.relative_accuracy)
      then (s, some accuracy_mismatch)
      else if other.count == 0
      then (s, none)
      else (merge_counts other (merge_buckets other.buckets s), none)

  -- The loop of `Quantile`: the value of the bucket in which the rank falls, or else the maximum.
  unfoldable pub quantile_from : ℕ → ℕ → List ℕ → Sketch Float → ℕ
  quantile_from rank cumulative [] s = s.max
  quantile_from rank cumulative (i ∷ is) s =
      let reached = add64 cumulative (bucket i s.buckets) in
      let later = quantile_from rank reached is s in if slt rank reached then value s i else later

  abbrev pub rank_of : Float → Sketch Float → ℕ
  rank_of q s = f.to_int (f.floor (f.times q (f.of_int (sub64 s.count 1))))

  abbrev pub is_invalid : Float → Bool
  is_invalid q = f.is_nan q || f.less q f.zero || f.less f.one q

  unfoldable pub quantile : Float → Sketch Float → Sketch Float × Result ℕ
  quantile q s =
      if is_invalid q
      then (s, err invalid_quantile)
      else if s.count == 0
      then (s, ok 0)
      else if slt (rank_of q s) s.zero_count
      then (s, ok 0)
      else let (s', indexes) = sorted_indexes s in
        (s', ok (quantile_from (rank_of q s) s.zero_count indexes s'))
