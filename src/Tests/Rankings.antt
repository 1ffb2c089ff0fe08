-- ===== src/Tests/Rankings.antt =====
-- The theorems on rankings and Pareto counts at the results of lib/pareto.test.ts.
use bit_bench.Prelude.{
  false, ◌≡◌, ◌↔◌, refl, ℕ, List, [], ◌∷◌, some, Str, codes, All, AllDistinct, map, str_eq, has,
}
use mathlib.Core.List.{Perm}
use bit_bench.Objects.{get}
use bit_bench.Results.{
  BenchmarkResult, Point, valid_points, valid_point, metric_of, compute_pareto, rank_results,
}
use bit_bench.Results.Pareto.{dominators, IsOptimal, point_names, compute_pareto_lem}
use bit_bench.Results.Ranking.{
  named_value, ranks, count_up, entry, is_better, concat, rank_results_lem,
}
use bit_bench.Prelude.Ordered.{Pairwise}
use bit_bench.Tests.Evidence.{ordered_naturals, all_distinct, distinct_names}

abbrev result : Str → ℕ → ℕ → BenchmarkResult ℕ
result name ratio throughput = record {
  compressor = name;
  metrics =
      (codes "compression_ratio", ratio) ∷ (codes "compression_throughput_mbs", throughput) ∷ [];
}

abbrev point : Str → ℕ → ℕ → Point ℕ
point name ratio throughput = record { compressor = name; ratio = ratio; throughput = throughput }

-- The last result has no throughput.
abbrev pub results : List (BenchmarkResult ℕ)
results =
    result (codes "a") 20 500
    ∷ result (codes "b") 30 400
    ∷ result (codes "c") 10 100
    ∷ record { compressor = codes "d"; metrics = (codes "compression_ratio", 5) ∷ [] }
    ∷ []

abbrev points : List (Point ℕ)
points = point (codes "a") 20 500 ∷ point (codes "b") 30 400 ∷ point (codes "c") 10 100 ∷ []

points_of_results : valid_points results ≡ points
unfolding valid_points valid_point metric_of get str_eq
points_of_results = refl

distinct : AllDistinct (point_names (valid_points results))
unfolding valid_points valid_point metric_of get str_eq
distinct =
    all_distinct (codes "a" ∷ codes "b" ∷ codes "c" ∷ []) (unfold distinct_names has str_eq in refl)

compute_pareto_lem_example :
    All
      (λ p.
        (get p.compressor (compute_pareto results) ≡ some (dominators p (valid_points results)))
        × ((dominators p (valid_points results) ≡ 0) ↔ IsOptimal p (valid_points results)))
      (valid_points results)
compute_pareto_lem_example = compute_pareto_lem results distinct

rank_results_lem_example :
    Perm
      (map named_value (rank_results results (codes "compression_ratio")))
      (concat (map (entry (codes "compression_ratio")) results))
    × Pairwise
        (λ x y. is_better (codes "compression_ratio") y.value x.value ≡ false)
        (rank_results results (codes "compression_ratio"))
    × (ranks (rank_results results (codes "compression_ratio"))
        ≡ count_up 1 (rank_results results (codes "compression_ratio")))
rank_results_lem_example = rank_results_lem results (codes "compression_ratio")
