-- ===== src/Compare/Table.antt =====
-- The shape of the comparison's tables.
use bit_bench.Prelude.{
  ℕ, suc, ◌+◌, ◌≡◌, refl, ap, ◌∙◌, List, [], ◌∷◌, ◌++◌, All, length, length-append, length-map, map,
  Str,
}
use bit_bench.Objects.{Object}
use bit_bench.Results.{BenchmarkResult}
use bit_bench.Metrics.{Arithmetic}
use bit_bench.Listing.{Benchmark}
use bit_bench.Latex.{LatexTableRow}
use bit_bench.Compare.Rows.{compressor_list, bench_row, averages, average_row, comparison_rows}

All-append : {A : Type 0} (P : A → Type 0) (xs ys : List A) → All P xs → All P ys → All P (xs ++ ys)
All-append P [] ys p q = q
All-append P (x ∷ xs) ys (here, p) q = (here, All-append P xs ys p q)

module _ {Num : Type 0} (a : Arithmetic Num) (percent : Num → Num) where
  -- A row has one value for each compressor.
  abbrev pub FitsColumns : List Str → LatexTableRow Num → Type 0
  FitsColumns compressors row = length row.values ≡ length compressors

  length-averages :
      (i : ℕ) (compressors : List Str) (rows : List (LatexTableRow Num))
      → length (averages a percent i compressors rows) ≡ length compressors
  unfolding averages
  length-averages i [] rows = refl
  length-averages i (c ∷ compressors) rows = ap suc (length-averages (suc i) compressors rows)

  bench_rows-FitsColumns :
      (metric : Str) (compressors : List Str) (results : Object (List (BenchmarkResult Num)))
      (benchmarks : List Benchmark)
      → All
          (FitsColumns compressors)
          (map (bench_row a percent metric compressors results) benchmarks)
  unfolding bench_row
  bench_rows-FitsColumns metric compressors results [] = tt
  bench_rows-FitsColumns metric compressors results (b ∷ benchmarks) =
      (length-map compressors _, bench_rows-FitsColumns metric compressors results benchmarks)

  -- The table of a metric has a row for each benchmark and one for the averages, and each row has one
  -- value for each compressor of the results.
  pub comparison_rows_lem :
      (metric : Str) (benchmarks : List Benchmark) (results : Object (List (BenchmarkResult Num)))
      → let rows = comparison_rows a percent metric benchmarks results in
        (length rows ≡ length benchmarks + 1) × All (FitsColumns (compressor_list results)) rows
  unfolding comparison_rows average_row
  comparison_rows_lem metric benchmarks results =
      let compressors = compressor_list results in
      let rows = map (bench_row a percent metric compressors results) benchmarks in
      (
        length-append rows (average_row a percent compressors rows ∷ [])
            ∙ ap (λ n. n + 1)
                (length-map benchmarks (bench_row a percent metric compressors results)),
        All-append (FitsColumns compressors) rows (average_row a percent compressors rows ∷ [])
            (bench_rows-FitsColumns metric compressors results benchmarks)
            (length-averages 0 compressors rows, tt),
      )
