-- ===== src/Compare/Rows.antt =====
-- The rows of the comparison's tables and the points of its chart (pages/ComparePage.tsx).
use bit_bench.Prelude.{
  ℕ, suc, Option, none, some, List, [], ◌∷◌, ◌++◌, not, Str, codes, str_eq, if◌then◌else◌, map,
  keep, find, length, get_elem?,
}
use mathlib.Core.Option
use bit_bench.Objects.{Object, get, put}
use bit_bench.Results.{BenchmarkResult, metric_of}
use bit_bench.Metrics.{Arithmetic}
use bit_bench.Listing.{Benchmark, or_nothing}
use bit_bench.Latex.{LatexTableRow, present_values}
use bit_bench.Compare.{MetricDef, add_once}

module _ {Num : Type 0} where
  -- `[...results.values()].flat()`
  unfoldable pub all_results : Object (List (BenchmarkResult Num)) → List (BenchmarkResult Num)
  all_results [] = []
  all_results ((id, res) ∷ results) = res ++ all_results results

  -- The compressors of the results, each once, in the order of their first result.
  unfoldable pub compressor_set : List Str → List (BenchmarkResult Num) → List Str
  unfolding add_once
  compressor_set set [] = set
  compressor_set set (r ∷ results) = compressor_set (add_once r.compressor set) results

  unfoldable pub compressor_list : Object (List (BenchmarkResult Num)) → List Str
  unfolding all_results compressor_set
  compressor_list results = compressor_set [] (all_results results)

  -- `results.get(b.id) || []`
  unfoldable pub results_of : Str → Object (List (BenchmarkResult Num)) → List (BenchmarkResult Num)
  results_of id results = or_nothing (get id results)

  -- `benchResults.find((br) => br.compressor === c)`
  unfoldable pub result_of : Str → List (BenchmarkResult Num) → Option (BenchmarkResult Num)
  result_of c results = find (λ r. str_eq r.compressor c) results

module _ {Num : Type 0} (a : Arithmetic Num) (percent : Num → Num) where
  -- A cell: a missing result or metric is `none`.
  unfoldable pub cell_value : Str → Option (BenchmarkResult Num) → Option Num
  unfolding metric_of
  cell_value metric none = none
  cell_value metric (some r) =
      if str_eq metric (codes "compression_ratio")
      then Option.map percent (metric_of metric r)
      else metric_of metric r

  unfoldable pub bench_row :
      Str → List Str → Object (List (BenchmarkResult Num)) → Benchmark → LatexTableRow Num
  unfolding cell_value results_of result_of
  bench_row metric compressors results b = record {
    label = b.name;
    values = map (λ c. cell_value metric (result_of c (results_of b.id results))) compressors;
  }

  unfoldable pub sum_from : Num → List Num → Num
  sum_from total [] = total
  sum_from total (v ∷ vs) = sum_from (a.add total v) vs

  -- `vals.reduce((a, b) => a + b, 0) / vals.length`, or `null` for none
  unfoldable pub average : List Num → Option Num
  unfolding sum_from
  average [] = none
  average (v ∷ vs) = some (a.div (sum_from (a.of_nat 0) (v ∷ vs)) (a.of_nat (length (v ∷ vs))))

  -- `rows.map((r) => r.values[ci])`, where `undefined` is left out with `null`
  unfoldable pub column : ℕ → List (LatexTableRow Num) → List (Option Num)
  column i [] = []
  column i (row ∷ rows) = elim (get_elem? row.values i) [ none ↦ none | some v ↦ v ] ∷ column i rows

  -- `compList.map((_, ci) => …)` from column `i` on
  unfoldable pub averages : ℕ → List Str → List (LatexTableRow Num) → List (Option Num)
  unfolding average column present_values
  averages i [] rows = []
  averages i (c ∷ compressors) rows =
      average (present_values (column i rows)) ∷ averages (suc i) compressors rows

  unfoldable pub average_row : List Str → List (LatexTableRow Num) → LatexTableRow Num
  unfolding averages
  average_row compressors rows = record {
    label = codes "Average";
    values = averages 0 compressors rows;
  }

  unfoldable pub comparison_rows :
      Str → List Benchmark → Object (List (BenchmarkResult Num)) → List (LatexTableRow Num)
  unfolding bench_row average_row compressor_list
  comparison_rows metric benchmarks results =
      let compressors = compressor_list results in
      let rows = map (bench_row metric compressors results) benchmarks in
      rows ++ average_row compressors rows ∷ []

  -- One point of the bar chart: the percentage of each benchmark that has one, by its name.
  unfoldable pub chart_entries :
      Str → Object (List (BenchmarkResult Num)) → Object Num → List Benchmark → Object Num
  unfolding results_of result_of
  chart_entries c results point [] = point
  chart_entries c results point (b ∷ benchmarks) =
      chart_entries c results
        (elim (cell_value (codes "compression_ratio") (result_of c (results_of b.id results))) [
          | none ↦ point
          | some ratio ↦ put b.name ratio point
        ])
        benchmarks

-- The metrics with a table of their own.
unfoldable pub table_metrics : List MetricDef → List MetricDef
table_metrics metrics = keep (λ m. not (str_eq m.key (codes "compression_ratio"))) metrics
