-- ===== src/Tests/Presets.antt =====
-- The theorem on the picker, at a registry of two compressors.
use bit_bench.Prelude.{◌≡◌, ◌↔◌, codes, true, In, to_lower, trim}
use bit_bench.Objects.{keys}
use bit_bench.Picker.{picker_families, names_of, matches}
use bit_bench.Picker.Laws.{In-picker_families}
use bit_bench.Tests.Instances.{registry}

In-picker_families_example :
    In (codes "gzip") (names_of (picker_families registry (codes " ZIP"))) ↔ (
      In (codes "gzip") (keys registry)
      × (matches (to_lower (trim (codes " ZIP"))) (codes "gzip") ≡ true))
In-picker_families_example = In-picker_families registry (codes " ZIP") (codes "gzip")
