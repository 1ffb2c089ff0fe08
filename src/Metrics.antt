-- ===== src/Metrics.antt =====
-- The metrics that the pages derive (lib/metrics.ts), with the labels and number formats of
-- lib/format.ts and lib/cpu.ts and the controls of numeric options (lib/options.ts) in the children.
-- The arithmetic and the formatting of JavaScript numbers are parameters.
pub mod Derived
pub mod Formats
pub mod Controls
use bit_bench.Prelude.{
  ℕ, ◌-◌, Option, none, some, List, [], ◌∷◌, ◌++◌, Bool, true, false, not, ◌&&◌, ◌||◌, Str, codes,
  str_eq, has, if◌then◌else◌, map, keep, leb, ltb, ◌==◌, replace_all,
}
use bit_bench.Objects.{Object, get, put}
use bit_bench.Options.{CompressorOption, OptionType, number, boolean, select}
use bit_bench.Results.{Ordered, BenchmarkResult, metric_of, le}

-- The operations on numbers that the sources use: numerals, the four operations, `Math.round`,
-- `toString` and `toFixed`, and whether a number is finite.
pub record Arithmetic (Num : Type 0) : Type 0 where
  pub of_nat : ℕ → Num
  pub add : Num → Num → Num
  pub sub : Num → Num → Num
  pub mul : Num → Num → Num
  pub div : Num → Num → Num
  pub round : Num → Num
  pub to_text : Num → Str
  pub to_fixed : ℕ → Num → Str
  pub is_finite : Num → Bool

-- An object literal sets a field to `undefined`, which reads as a missing one.
unfoldable pub remove : {A : Type 0} → Str → Object A → Object A
remove k [] = []
remove k ((j, v) ∷ o) = if str_eq k j then remove k o else (j, v) ∷ remove k o

unfoldable pub assign : {A : Type 0} → Str → Option A → Object A → Object A
unfolding remove
assign k none o = remove k o
assign k (some v) o = put k v o

module _ {Num : Type 0} ⦃o : Ordered Num⦄ (a : Arithmetic Num) where
  -- `num_values <= 0 ? undefined : bits / num_values`
  unfoldable pub per_value : Num → Num → Option Num
  per_value bits num_values =
      if le num_values (a.of_nat 0) then none else some (a.div bits num_values)

  unfoldable pub bits_over_values : Option Num → Option Num → Option Num
  unfolding per_value
  bits_over_values none num_values = none
  bits_over_values (some bits) none = none
  bits_over_values (some bits) (some num_values) = per_value bits num_values

  unfoldable pub bits_per_element : BenchmarkResult Num → Option Num
  unfolding bits_over_values metric_of
  bits_per_element r =
      bits_over_values (metric_of (codes "compressed_bits") r) (metric_of (codes "num_values") r)

  unfoldable pub uncompressed_bits_per_element : BenchmarkResult Num → Option Num
  unfolding bits_over_values metric_of
  uncompressed_bits_per_element r =
      bits_over_values (metric_of (codes "uncompressed_bits") r) (metric_of (codes "num_values") r)

  unfoldable pub derive : BenchmarkResult Num → BenchmarkResult Num
  unfolding bits_per_element uncompressed_bits_per_element assign
  derive r = record r {
    metrics =
        assign (codes "uncompressed_bits_per_element") (uncompressed_bits_per_element r)
          (assign (codes "bits_per_element") (bits_per_element r) r.metrics);
  }

  unfoldable pub with_derived_metrics : List (BenchmarkResult Num) → List (BenchmarkResult Num)
  unfolding derive
  with_derived_metrics results = map derive results
