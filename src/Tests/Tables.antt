-- ===== src/Tests/Tables.antt =====
-- The theorems on metrics, on the list of Pareto counts and on LaTeX tables, at three results.
use bit_bench.Prelude.{
  ◌+◌, ◌-◌, ◌*◌, ◌/◌, str_eq, sort, insert, ◌≡◌, refl, inl, inr, ℕ, [], ◌∷◌, none, some, codes,
  true,
}
use bit_bench.Objects.{get, put}
use bit_bench.Results.{
  RankedRow, compute_pareto, pareto_from, valid_points, valid_point, metric_of, domination_count,
  dominates, le,
}
use bit_bench.Metrics.{Arithmetic}
use bit_bench.Compare.{get_metric_defs}
use bit_bench.Compare.Keys.{IsListing, keys_of, get_metric_defs_lem}
use bit_bench.Latex.{rank_of, better, present_values}
use bit_bench.Latex.Ranks.{count, rank_of-count}
use bit_bench.Detail.{pareto_sorted, count_before, ratio_of, reference_value}
use bit_bench.Prelude.Decimal.{decimal}
use bit_bench.Tests.Evidence.{ordered_naturals}
use bit_bench.Tests.Rankings.{results}

get_metric_defs_lem_example : IsListing results (keys_of (get_metric_defs results))
get_metric_defs_lem_example = get_metric_defs_lem results

rank_of-count_example :
    rank_of {Num = ℕ} 20 (some 10 ∷ none ∷ some 20 ∷ []) true
    ≡ some (count (λ (y : ℕ). better true y 20) (present_values (some 10 ∷ none ∷ some 20 ∷ [])))
rank_of-count_example =
    rank_of-count {Num = ℕ} true 20 (some 10 ∷ none ∷ some 20 ∷ []) (inr (inr (inl refl)))

-- A row that is ranked last.
abbrev third : RankedRow ℕ
third = record { compressor = codes "b"; value = 30; rank = 3 }

-- Whole numbers, with the division that rounds down.
abbrev whole : Arithmetic ℕ
whole = record {
  of_nat = λ n. n;
  add = λ m n. m + n;
  sub = λ m n. m - n;
  mul = λ m n. m * n;
  div = λ m n. m / n;
  round = λ n. n;
  to_text = decimal;
  to_fixed = λ digits n. decimal n;
  is_finite = λ n. true;
}

listed :
    (compute_pareto results ≡ (codes "a", 0) ∷ (codes "b", 1) ∷ (codes "c", 0) ∷ [])
    × (pareto_sorted whole results ≡ (codes "c", 0) ∷ (codes "a", 0) ∷ (codes "b", 1) ∷ [])
unfolding pareto_sorted compute_pareto pareto_from valid_points valid_point metric_of get put str_eq
    domination_count dominates le sort insert count_before ratio_of reference_value
listed = (refl, refl)
