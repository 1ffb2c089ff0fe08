-- ===== src/Metrics/Formats.antt =====
-- Labels, number formats and CPU flags (lib/format.ts and lib/cpu.ts).
use bit_bench.Prelude.{
  ℕ, ◌-◌, none, some, List, [], ◌∷◌, ◌++◌, Bool, false, not, ◌&&◌, ◌||◌, Str, codes, str_eq, has,
  if◌then◌else◌, keep, leb, ◌==◌, replace_all,
}
use bit_bench.Objects.{Object, get}
use bit_bench.Results.{Ordered, le}
use bit_bench.Metrics.{Arithmetic}

-- `METRIC_LABELS`
unfoldable pub metric_labels : Object Str
metric_labels =
    (codes "compression_ratio", codes "Compression Ratio (%)")
    ∷ (codes "compression_throughput_mbs", codes "Compression Throughput (MB/s)")
    ∷ (codes "decompression_throughput_mbs", codes "Decompression Throughput (MB/s)")
    ∷ (codes "memory_usage", codes "Memory Usage (MB)")
    ∷ (codes "compressor_internal", codes "Compressor Memory (MB)")
    ∷ (codes "random_access_ns", codes "Random Access (ns)")
    ∷ (codes "random_access_mbs", codes "Random Access (MB/s)")
    ∷ (codes "relative_memory_usage", codes "Relative Memory Usage")
    ∷ (codes "internal_memory_ratio", codes "Internal Memory Ratio")
    ∷ (codes "bits_per_element", codes "Bits per Element (b/e)")
    ∷ (codes "uncompressed_bits_per_element", codes "Uncompressed Container (b/e)")
    ∷ []

unfoldable pub is_lower : ℕ → Bool
is_lower c = leb b'a' c && leb c b'z'

-- `\w`
unfoldable pub is_word : ℕ → Bool
unfolding is_lower
is_word c = is_lower c || (leb b'A' c && leb c b'Z') || (leb b'0' c && leb c b'9') || (c == b'_')

-- `.replace(/\b\w/g, (c) => c.toUpperCase())`; the test tells if the unit before is of a word.
unfoldable pub upper_words : Bool → Str → Str
unfolding is_lower is_word
upper_words inside [] = []
upper_words inside (c ∷ s) =
    (if not inside && is_lower c then c - 32 else c) ∷ upper_words (is_word c) s

-- `METRIC_LABELS[key] || …`; no label is empty.
unfoldable pub metric_label : Str → Str
unfolding metric_labels upper_words
metric_label key = elim (get key metric_labels) [
  | none ↦ upper_words false (replace_all b'_' (codes " ") key)
  | some label ↦ label
]

unfoldable pub memory_metrics : List Str
memory_metrics = codes "memory_usage" ∷ codes "compressor_internal" ∷ []

unfoldable pub bits_per_element_metrics : List Str
bits_per_element_metrics = codes "bits_per_element" ∷ codes "uncompressed_bits_per_element" ∷ []

module _ {Num : Type 0} ⦃o : Ordered Num⦄ (a : Arithmetic Num) where
  unfoldable pub format_bytes : Num → Str
  format_bytes bytes =
      if o.lt bytes (a.of_nat 1024)
      then a.to_text (a.round bytes) ++ codes " B"
      else (if o.lt bytes (a.of_nat 1048576)
          then a.to_fixed 1 (a.div bytes (a.of_nat 1024)) ++ codes " KB"
          else a.to_fixed 2 (a.div bytes (a.of_nat 1048576)) ++ codes " MB")

  unfoldable pub format_metric_value : Num → Str → Str
  unfolding format_bytes memory_metrics bits_per_element_metrics
  format_metric_value value metric =
      if has metric memory_metrics
      then format_bytes value
      else (if has metric bits_per_element_metrics
          then a.to_fixed 2 value ++ codes " b/e"
          else (if str_eq metric (codes "compression_ratio") || str_eq metric (codes "ratio")
              then a.to_fixed 2 (a.mul value (a.of_nat 100)) ++ codes "%"
              else a.to_fixed 2 value))

  -- `!mhz || mhz <= 0` is the second test alone.
  unfoldable pub format_mhz : Num → Str
  format_mhz mhz =
      if le mhz (a.of_nat 0)
      then codes "--"
      else (if le (a.of_nat 1000) mhz
          then a.to_fixed 2 (a.div mhz (a.of_nat 1000)) ++ codes " GHz"
          else a.to_text (a.round mhz) ++ codes " MHz")

  unfoldable pub format_load : Num → Str
  format_load load = if not (a.is_finite load) then codes "--" else a.to_fixed 2 load

  unfoldable pub format_utilization : Num → Str
  format_utilization utilization =
      if not (a.is_finite utilization) || o.lt utilization (a.of_nat 0)
      then codes "0%"
      else a.to_fixed 0 (if o.lt utilization (a.of_nat 100) then utilization else a.of_nat 100)
        ++ codes "%"

-- `NOTABLE_FLAGS`
unfoldable pub known_flags : List Str
known_flags =
    codes "avx512f"
    ∷ codes "avx512bw"
    ∷ codes "avx512vl"
    ∷ codes "avx2"
    ∷ codes "avx"
    ∷ codes "fma"
    ∷ codes "bmi2"
    ∷ codes "bmi1"
    ∷ codes "sse4_2"
    ∷ codes "sse4_1"
    ∷ codes "ssse3"
    ∷ codes "sse2"
    ∷ codes "aes"
    ∷ codes "pclmulqdq"
    ∷ codes "sha_ni"
    ∷ codes "popcnt"
    ∷ []

unfoldable pub notable_flags : List Str → List Str
unfolding known_flags
notable_flags flags = keep (λ flag. has flag flags) known_flags
