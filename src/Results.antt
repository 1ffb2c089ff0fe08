-- ===== src/Results.antt =====
-- Ranking and Pareto counts on the results page of a benchmark (pages/DetailPage.tsx).
pub mod Order
pub mod Pareto
pub mod Ranking
use bit_bench.Prelude.{
  ℕ, zero, suc, ◌+◌, ◌≡◌, ◌⊎◌, Option, none, some, List, [], ◌∷◌, Bool, true, false, not, ◌&&◌,
  ◌||◌, Str, codes, has, if◌then◌else◌, ◌==◌, map, map_index, keep, sort,
}
use bit_bench.Objects.{Object, put, get}

-- The order of JavaScript numbers that are not `NaN`, which JSON cannot carry.
pub record Ordered (Num : Type 0) : Type 0 where
  pub lt : Num → Num → Bool
  pub lt_irrefl : (a : Num) → lt a a ≡ false
  pub lt_trans : (a b c : Num) → lt a b ≡ true → lt b c ≡ true → lt a c ≡ true
  pub lt_connected : (a b : Num) → lt a b ≡ false → lt b a ≡ false → a ≡ b

-- A result, with the fields that the pages read by name in `metrics`. A missing or null field has
-- no entry.
pub record BenchmarkResult (Num : Type 0) : Type 0 where
  pub compressor : Str
  pub metrics : Object Num

-- `r[metric]`
unfoldable pub metric_of : {Num : Type 0} → Str → BenchmarkResult Num → Option Num
metric_of metric r = get metric r.metrics

unfoldable pub lower_is_better : List Str
lower_is_better =
    codes "compression_ratio"
    ∷ codes "compressed_bits"
    ∷ codes "uncompressed_bits"
    ∷ codes "original_size"
    ∷ codes "memory_usage"
    ∷ codes "compressor_internal"
    ∷ codes "random_access_ns"
    ∷ codes "bits_per_element"
    ∷ []

unfoldable pub is_lower_better : Str → Bool
is_lower_better key = has key lower_is_better

pub record RankedRow (Num : Type 0) : Type 0 where
  pub compressor : Str
  pub value : Num
  pub rank : ℕ

-- A result with the two numbers that the Pareto count compares.
pub record Point (Num : Type 0) : Type 0 where
  pub compressor : Str
  pub ratio : Num
  pub throughput : Num

module _ {Num : Type 0} where
  -- `r.rank = i + 1`
  unfoldable pub with_rank : ℕ → RankedRow Num → RankedRow Num
  with_rank i r = record r { rank = i + 1 }

  -- The loop of `rankResults` that collects the rows.
  unfoldable pub ranked_rows : List (BenchmarkResult Num) → Str → List (RankedRow Num)
  unfolding metric_of
  ranked_rows [] metric = []
  ranked_rows (r ∷ results) metric =
      let rest = ranked_rows results metric in
      elim (metric_of metric r) [
        | none ↦ rest
        | some v ↦ record { compressor = r.compressor; value = v; rank = 0 } ∷ rest
      ]

  -- `results.filter(…)`, with the two numbers that the filter has found.
  unfoldable pub valid_point : BenchmarkResult Num → Option (Point Num)
  unfolding metric_of
  valid_point r = elim (metric_of (codes "compression_ratio") r) [
    | none ↦ none
    | some ratio ↦ elim (metric_of (codes "compression_throughput_mbs") r) [
      | none ↦ none
      | some throughput ↦
          some (record { compressor = r.compressor; ratio = ratio; throughput = throughput })
    ]
  ]

  unfoldable pub valid_points : List (BenchmarkResult Num) → List (Point Num)
  unfolding valid_point
  valid_points [] = []
  valid_points (r ∷ results) =
      let rest = valid_points results in elim (valid_point r) [ none ↦ rest | some p ↦ p ∷ rest ]

module _ {Num : Type 0} ⦃o : Ordered Num⦄ where
  -- The comparator: ascending for a metric where lower is better, else descending.
  unfoldable pub row_before : Bool → RankedRow Num → RankedRow Num → Bool
  row_before lower a b = if lower then o.lt a.value b.value else o.lt b.value a.value

  unfoldable pub rank_results : List (BenchmarkResult Num) → Str → List (RankedRow Num)
  unfolding row_before with_rank is_lower_better
  rank_results results metric =
      map_index with_rank 0
        (sort (row_before (is_lower_better metric)) (ranked_rows results metric))

  -- `a <= b` on numbers that are not `NaN`
  unfoldable pub le : Num → Num → Bool
  le a b = not (o.lt b a)

  -- `bDominatesA && strictlyBetter`
  unfoldable pub dominates : Point Num → Point Num → Bool
  unfolding le
  dominates b a =
      le b.ratio a.ratio
      && le a.throughput b.throughput
      && (o.lt b.ratio a.ratio || o.lt a.throughput b.throughput)

  -- The inner loop of `computePareto`, over the points from index `j`; point `i` is `a` itself.
  unfoldable pub domination_count : ℕ → Point Num → ℕ → List (Point Num) → ℕ
  unfolding dominates
  domination_count i a j [] = 0
  domination_count i a j (b ∷ rest) =
      let count = domination_count i a (j + 1) rest in
      if i == j then count else (if dominates b a then suc count else count)

  -- The outer loop, from index `i`; the map is an object here.
  unfoldable pub pareto_from : List (Point Num) → ℕ → List (Point Num) → Object ℕ → Object ℕ
  unfolding domination_count
  pareto_from valid i [] counts = counts
  pareto_from valid i (a ∷ rest) counts =
      pareto_from valid (i + 1) rest (put a.compressor (domination_count i a 0 valid) counts)

  unfoldable pub compute_pareto : List (BenchmarkResult Num) → Object ℕ
  unfolding pareto_from valid_points
  compute_pareto results = let valid = valid_points results in pareto_from valid 0 valid []
