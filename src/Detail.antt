-- ===== src/Detail.antt =====
-- The results page of a benchmark (pages/DetailPage.tsx), but for the rankings and the Pareto counts
-- themselves: which sections it shows, its list of Pareto counts, and the LaTeX table of a ranking.
pub mod Emphasis
pub mod Leaders
use bit_bench.Prelude.{
  ℕ, ◌≡◌, Option, none, some, List, [], ◌∷◌, ◌++◌, Bool, true, false, not, ◌&&◌, ◌||◌, Str, codes,
  str_eq, if◌then◌else◌, map, any, find, sort, take, ltb, ◌==◌,
}
use bit_bench.Api.{Settled, resolved, rejected}
use bit_bench.Objects.{Object, get}
use bit_bench.Compressors.{rename_compressor}
use bit_bench.Platforms.{option_eq}
use bit_bench.Results.{
  Ordered, BenchmarkResult, RankedRow, metric_of, is_lower_better, rank_results, compute_pareto,
}
use bit_bench.Metrics.{Arithmetic, with_derived_metrics}
use bit_bench.Listing.{Benchmark, or_nothing}
use bit_bench.Latex.{LatexTableRow, build_latex_table}

-- `BenchmarkDetailResponse`
pub record DetailResponse (Num : Type 0) : Type 0 where
  pub benchmark : Benchmark
  pub results : Option (List (BenchmarkResult Num))

pub record DetailState (Num : Type 0) : Type 0 where
  pub benchmark : Option Benchmark
  pub results : List (BenchmarkResult Num)
  pub loading : Bool
  pub expanded_metric : Option Str

-- A click on the title of a section.
unfoldable pub toggle_metric : {Num : Type 0} → Str → DetailState Num → DetailState Num
toggle_metric key s = record s {
  expanded_metric = if option_eq s.expanded_metric (some key) then none else some key;
}

-- The labels of this page, which differ from those of lib/format.ts.
unfoldable pub detail_labels : Object Str
detail_labels =
    (codes "compression_ratio", codes "Compression Ratio (%)")
    ∷ (codes "compression_throughput_mbs", codes "Compression Throughput (MB/s)")
    ∷ (codes "decompression_throughput_mbs", codes "Decompression Throughput (MB/s)")
    ∷ (codes "memory_usage", codes "Memory Usage")
    ∷ (codes "compressor_internal", codes "Compressor Memory")
    ∷ (codes "random_access_ns", codes "Random Access (ns)")
    ∷ (codes "random_access_mbs", codes "Random Access (MB/s)")
    ∷ (codes "bits_per_element", codes "Bits per Element (b/e)")
    ∷ (codes "uncompressed_bits_per_element", codes "Uncompressed Container (b/e)")
    ∷ []

-- `labels[key] || key`
unfoldable pub detail_label : Str → Str
unfolding detail_labels
detail_label key = elim (get key detail_labels) [ none ↦ key | some label ↦ label ]

pub data Chart : Type 0 where
  bar scatter : Chart

pub record Section : Type 0 where
  pub key : Str
  pub label : Str
  pub chart : Chart
  pub show : Bool

unfoldable pub is_some : {A : Type 0} → Option A → Bool
is_some none = false
is_some (some a) = true

module _ {Num : Type 0} where
  -- `results.some((r) => r[metric] != null)`
  unfoldable pub has_metric : Str → List (BenchmarkResult Num) → Bool
  unfolding is_some metric_of
  has_metric metric results = any (λ r. is_some (metric_of metric r)) results

  -- `metricSections`
  unfoldable pub metric_sections : List (BenchmarkResult Num) → List Section
  unfolding has_metric
  metric_sections results =
      record {
        key = codes "compression_ratio";
        label = codes "Compression Ratio";
        chart = bar;
        show = true;
      }
      ∷ record {
        key = codes "bits_per_element";
        label = codes "Bits per Element";
        chart = bar;
        show = has_metric (codes "bits_per_element") results;
      }
      ∷ record {
        key = codes "compression_throughput_mbs";
        label = codes "Compression Throughput";
        chart = scatter;
        show = has_metric (codes "compression_throughput_mbs") results;
      }
      ∷ record {
        key = codes "decompression_throughput_mbs";
        label = codes "Decompression Throughput";
        chart = scatter;
        show = has_metric (codes "decompression_throughput_mbs") results;
      }
      ∷ record {
        key = codes "memory_usage";
        label = codes "Memory Usage";
        chart = bar;
        show = has_metric (codes "memory_usage") results;
      }
      ∷ record {
        key = codes "compressor_internal";
        label = codes "Compressor Memory";
        chart = bar;
        show = has_metric (codes "compressor_internal") results;
      }
      ∷ record {
        key = codes "random_access_ns";
        label = codes "Random Access (ns)";
        chart = bar;
        show = has_metric (codes "random_access_ns") results;
      }
      ∷ record {
        key = codes "random_access_mbs";
        label = codes "Random Access (MB/s)";
        chart = scatter;
        show = has_metric (codes "random_access_mbs") results;
      }
      ∷ []

  -- `results.find((r) => r.uncompressed_bits_per_element != null)?.… ?? null`
  unfoldable pub uncompressed_reference : List (BenchmarkResult Num) → Option Num
  unfolding metric_of
  uncompressed_reference [] = none
  uncompressed_reference (r ∷ results) =
      let rest = uncompressed_reference results in
      elim (metric_of (codes "uncompressed_bits_per_element") r) [ none ↦ rest | some v ↦ some v ]

  -- `referenceValue`
  unfoldable pub reference_value : List (BenchmarkResult Num) → Option Str → Str → Option Num
  unfolding metric_of
  reference_value results none compressor = none
  reference_value results (some metric) compressor =
      elim (find (λ r. str_eq r.compressor compressor) results) [
        | none ↦ none
        | some r ↦ metric_of metric r
      ]

  -- `hasReference`
  unfoldable pub has_reference :
      List (BenchmarkResult Num) → Option Str → List (RankedRow Num) → Bool
  unfolding reference_value is_some
  has_reference results reference ranked =
      is_some reference
      && any (λ r. is_some (reference_value results reference r.compressor)) ranked

  unfoldable pub latex_row :
      List (BenchmarkResult Num) → Option Str → Bool → RankedRow Num → LatexTableRow Num
  unfolding reference_value
  latex_row results reference with_reference r = record {
    label = rename_compressor r.compressor;
    values =
        if with_reference
        then some r.value ∷ reference_value results reference r.compressor ∷ []
        else some r.value ∷ [];
  }

unfoldable pub latex_columns : Str → Option Str → Bool → List Str
latex_columns metric none with_reference = detail_label metric ∷ []
latex_columns metric (some reference) with_reference =
    if with_reference
    then detail_label metric ∷ detail_label reference ∷ []
    else detail_label metric ∷ []

-- The caption of the table: the label and the direction.
unfoldable pub latex_caption : Str → Str
unfolding detail_label
latex_caption metric =
    detail_label metric
    ++ codes " — "
    ++ (if is_lower_better metric then codes "Lower is better" else codes "Higher is better")

module _ {Num : Type 0} ⦃o : Ordered Num⦄ (a : Arithmetic Num) where
  unfoldable pub take_details : Settled (DetailResponse Num) → DetailState Num → DetailState Num
  take_details (resolved (some response)) s = record s {
    benchmark = some response.benchmark;
    results = with_derived_metrics a (or_nothing response.results);
    loading = false;
  }
  take_details (resolved none) s = record s { loading = false }
  take_details (rejected message) s = record s { loading = false }

  -- `results.find(…)?.compression_ratio ?? 0`
  unfoldable pub ratio_of : List (BenchmarkResult Num) → Str → Num
  ratio_of results compressor =
      elim (reference_value results (some (codes "compression_ratio")) compressor) [
        | none ↦ a.of_nat 0
        | some ratio ↦ ratio
      ]

  -- The comparator: fewer dominators first, then the lower ratio.
  unfoldable pub count_before : List (BenchmarkResult Num) → Str × ℕ → Str × ℕ → Bool
  unfolding ratio_of
  count_before results x y =
      ltb x.1 y.1 || ((x.1 == y.1) && o.lt (ratio_of results x.0) (ratio_of results y.0))

  -- `paretoSorted`
  unfoldable pub pareto_sorted : List (BenchmarkResult Num) → Object ℕ
  unfolding count_before
  pareto_sorted results = take 5 (sort (count_before results) (compute_pareto results))

module _ {Num : Type 0} ⦃o : Ordered Num⦄ (format_number : Num → Str) where
  -- What "Copy LaTeX" copies below a ranking.
  unfoldable pub ranking_latex : List (BenchmarkResult Num) → Str → Option Str → Str
  unfolding has_reference latex_row latex_columns latex_caption
  ranking_latex results metric reference =
      let ranked = rank_results results metric in
      let with_reference = has_reference results reference ranked in
      build_latex_table format_number (map (latex_row results reference with_reference) ranked)
        (latex_columns metric reference with_reference) (latex_caption metric)
        (is_lower_better metric)
