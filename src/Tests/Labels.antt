-- ===== src/Tests/Labels.antt =====
-- The theorems on compressor names at the names of lib/compressors.test.ts.
use bit_bench.Prelude.{◌≡◌, refl, ◌++◌, codes}
use bit_bench.Compressors.{label_separator, split_compressor_label, rename_compressor, display_base}
use bit_bench.Compressors.Labels.{HasNoDot}
use bit_bench.Compressors.Laws.{split_compressor_label-rename_compressor}
use bit_bench.Tests.Evidence.{absent}

gzip_undotted : HasNoDot (codes "gzip")
gzip_undotted = absent 183 (codes "gzip") refl

split_compressor_label-rename_compressor_example :
    split_compressor_label (rename_compressor (codes "gzip" ++ label_separator ++ codes "level 9"))
    ≡ record { base = display_base (codes "gzip"); config = codes "level 9" }
split_compressor_label-rename_compressor_example =
    split_compressor_label-rename_compressor (codes "gzip") (codes "level 9") gzip_undotted
