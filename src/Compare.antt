-- ===== src/Compare.antt =====
-- The comparison of benchmarks (pages/ComparePage.tsx): loading it, and the metrics that it shows;
-- Rows has the rows of its tables. Turning a ratio into a percentage of two decimals is a parameter.
pub mod Keys
pub mod Rows
pub mod Table
use bit_bench.Prelude.{
  ℕ, suc, ◌≡◌, Option, none, some, List, [], ◌∷◌, ◌++◌, Bool, true, false, not, ◌&&◌, Str, codes,
  str_eq, has, if◌then◌else◌, map, keep, find, sort, length, ltb, get_elem?,
}
use mathlib.Core.Option
use bit_bench.Api.{Settled, resolved, rejected}
use bit_bench.Objects.{Object, get, put, keys}
use bit_bench.Compressors.{rename_compressor}
use bit_bench.Results.{Ordered, BenchmarkResult, metric_of}
use bit_bench.Metrics.{Arithmetic, with_derived_metrics}
use bit_bench.Metrics.Formats.{metric_label}
use bit_bench.Listing.{Benchmark, or_nothing}
use bit_bench.Latex.{LatexTableRow, present_values}

-- `EXCLUDED_METRICS`
unfoldable pub excluded_metrics : List Str
excluded_metrics =
    codes "num_values"
    ∷ codes "original_size"
    ∷ codes "dataset_size"
    ∷ codes "dataset_base"
    ∷ codes "dataset_type"
    ∷ codes "source_results_csv"
    ∷ codes "input_buffer"
    ∷ codes "relative_memory_usage"
    ∷ codes "internal_memory_ratio"
    ∷ codes "uncompressed_bits_per_element"
    ∷ []

-- The keys that come first, in this order.
unfoldable pub metric_order : List Str
metric_order =
    codes "compression_ratio"
    ∷ codes "bits_per_element"
    ∷ codes "compression_throughput_mbs"
    ∷ codes "decompression_throughput_mbs"
    ∷ codes "memory_usage"
    ∷ codes "compressor_internal"
    ∷ codes "random_access_ns"
    ∷ codes "random_access_mbs"
    ∷ []

-- `LOWER_IS_BETTER`
unfoldable pub compare_lower_is_better : List Str
compare_lower_is_better =
    codes "compression_ratio"
    ∷ codes "compressed_bits"
    ∷ codes "uncompressed_bits"
    ∷ codes "original_size"
    ∷ codes "memory_usage"
    ∷ codes "compressor_internal"
    ∷ codes "random_access_ns"
    ∷ codes "internal_memory_ratio"
    ∷ codes "relative_memory_usage"
    ∷ codes "bits_per_element"
    ∷ []

pub record MetricDef : Type 0 where
  pub key : Str
  pub label : Str

-- `set.add(k)`
unfoldable pub add_once : Str → List Str → List Str
add_once k set = if has k set then set else set ++ k ∷ []

-- The inner loop over the fields of a result.
unfoldable pub add_keys : List Str → List Str → List Str
unfolding add_once
add_keys set [] = set
add_keys set (k ∷ ks) = add_keys (if has k excluded_metrics then set else add_once k set) ks

-- The outer loop over the results. The metrics of a result are its fields that are numbers.
unfoldable pub metric_keys : {Num : Type 0} → List Str → List (BenchmarkResult Num) → List Str
unfolding add_keys
metric_keys set [] = set
metric_keys set (r ∷ results) = metric_keys (add_keys set (keys r.metrics)) results

-- `order.indexOf(k)`, with 999 for -1
unfoldable pub place_from : ℕ → Str → List Str → ℕ
place_from i k [] = 999
place_from i k (j ∷ order) = let rest = place_from (suc i) k order in if str_eq j k then i else rest

unfoldable pub key_before : Str → Str → Bool
unfolding place_from metric_order
key_before a b = ltb (place_from 0 a metric_order) (place_from 0 b metric_order)

unfoldable pub get_metric_defs : {Num : Type 0} → List (BenchmarkResult Num) → List MetricDef
unfolding metric_keys key_before
get_metric_defs results =
    map (λ key. record { key = key; label = metric_label key })
      (sort key_before (metric_keys [] results))

-- `CompareResponse`
pub record CompareResponse (Num : Type 0) : Type 0 where
  pub benchmarks : Option (List Benchmark)
  pub results : Option (Object (List (BenchmarkResult Num)))

pub record CompareState (Num : Type 0) : Type 0 where
  pub benchmarks : List Benchmark
  pub results : Object (List (BenchmarkResult Num))
  pub loading : Bool
  pub error : Str

unfoldable pub finish_compare : {Num : Type 0} → CompareState Num → CompareState Num
finish_compare s = record s { loading = false }

module _ {Num : Type 0} ⦃o : Ordered Num⦄ (a : Arithmetic Num) where
  -- The loop over the entries of `data.results`.
  unfoldable pub derive_all :
      Object (List (BenchmarkResult Num))
      → Object (List (BenchmarkResult Num))
      → Object (List (BenchmarkResult Num))
  derive_all done [] = done
  derive_all done ((id, res) ∷ rest) = derive_all (put id (with_derived_metrics a res) done) rest

  unfoldable pub take_comparison :
      Settled (CompareResponse Num) → CompareState Num → CompareState Num
  unfolding derive_all
  take_comparison (resolved (some response)) s = record s {
    benchmarks = or_nothing response.benchmarks;
    results = derive_all [] (or_nothing response.results);
  }
  take_comparison (resolved none) s = record s { error = codes "Failed to load comparison data." }
  take_comparison (rejected message) s = record s {
    error = codes "Failed to load comparison data.";
  }

  -- The effect of `useCompareData`, with what the server answers to the identifiers.
  unfoldable pub load_comparison :
      (Str → Settled (CompareResponse Num)) → Option Str → CompareState Num → CompareState Num
  unfolding take_comparison finish_compare
  load_comparison serve none s =
      finish_compare (record s { error = codes "No benchmarks selected for comparison." })
  load_comparison serve (some ids) s =
      if str_eq ids []
      then finish_compare (record s { error = codes "No benchmarks selected for comparison." })
      else finish_compare (take_comparison (serve ids) s)
