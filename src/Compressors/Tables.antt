-- ===== src/Compressors/Tables.antt =====
-- The tables of lib/compressors.ts: display names, colours, families and the shapes of families.
use bit_bench.Prelude.{[], ◌∷◌, Str, String, codes}
use bit_bench.Objects.{Object}

abbrev entry : String → String → Str × Str
entry key value = (codes key, codes value)

unfoldable pub compressor_renames : Object Str
compressor_renames =
    entry "b_star_gef_approximate" "B*-GEF (Approx)"
    ∷ entry "b_star_gef_optimal" "B*-GEF (Opt)"
    ∷ entry "b_gef_approximate" "B-GEF (Approx)"
    ∷ entry "b_gef_optimal" "B-GEF (Opt)"
    ∷ entry "rle_gef" "RLE-GEF"
    ∷ entry "u_gef_approximate" "U-GEF (Approx)"
    ∷ entry "u_gef_optimal" "U-GEF (Opt)"
    ∷ entry "snappy" "Snappy"
    ∷ entry "pfordelta" "PForDelta"
    ∷ entry "pfordelta_simdnewpfor" "PForDelta"
    ∷ entry "bzip2" "Bzip2"
    ∷ entry "bzip3" "Bzip3"
    ∷ entry "gzip" "Gzip"
    ∷ entry "neats" "NeaTS"
    ∷ entry "dac" "DAC"
    ∷ entry "alp" "ALP"
    ∷ entry "gorilla" "Gorilla"
    ∷ entry "chimp" "Chimp"
    ∷ entry "chimp128" "Chimp128"
    ∷ entry "tsxor" "TSXor"
    ∷ entry "elf" "Elf"
    ∷ entry "camel" "Camel"
    ∷ entry "falcon" "Falcon"
    ∷ entry "lz4" "LZ4"
    ∷ entry "zstd" "Zstd"
    ∷ entry "brotli" "Brotli"
    ∷ entry "xz" "XZ"
    ∷ []

unfoldable pub compressor_colors : Object Str
compressor_colors =
    entry "B*-GEF (Approx)" "#1f77b4"
    ∷ entry "B*-GEF (Opt)" "#ff7f0e"
    ∷ entry "B-GEF (Approx)" "#2ca02c"
    ∷ entry "B-GEF (Opt)" "#9467bd"
    ∷ entry "RLE-GEF" "#d62728"
    ∷ entry "U-GEF (Approx)" "#e377c2"
    ∷ entry "U-GEF (Opt)" "#bcbd22"
    ∷ entry "Bzip2" "#8c564b"
    ∷ entry "Bzip3" "#17becf"
    ∷ entry "Brotli" "#17becf"
    ∷ entry "Gzip" "#1f77b4"
    ∷ entry "LZ4" "#2ca02c"
    ∷ entry "Snappy" "#9467bd"
    ∷ entry "XZ" "#d62728"
    ∷ entry "Zstd" "#e377c2"
    ∷ entry "Camel" "#9467bd"
    ∷ entry "Chimp" "#8c564b"
    ∷ entry "Chimp128" "#e377c2"
    ∷ entry "Elf" "#17becf"
    ∷ entry "Falcon" "#e6194b"
    ∷ entry "Gorilla" "#1f77b4"
    ∷ entry "NeaTS" "#ff7f0e"
    ∷ entry "TSXor" "#d62728"
    ∷ entry "PForDelta" "#2ca02c"
    ∷ entry "DAC" "#bcbd22"
    ∷ entry "ALP" "#bcbd22"
    ∷ []

unfoldable pub compressor_families : Object Str
compressor_families =
    entry "Bzip2" "Block-sorting"
    ∷ entry "Bzip3" "Block-sorting"
    ∷ entry "Brotli" "Dictionary-based"
    ∷ entry "Gzip" "Dictionary-based"
    ∷ entry "LZ4" "Dictionary-based"
    ∷ entry "Snappy" "Dictionary-based"
    ∷ entry "XZ" "Dictionary-based"
    ∷ entry "Zstd" "Dictionary-based"
    ∷ entry "ALP" "Time Series"
    ∷ entry "Camel" "Time Series"
    ∷ entry "Chimp" "Time Series"
    ∷ entry "Chimp128" "Time Series"
    ∷ entry "Elf" "Time Series"
    ∷ entry "Falcon" "Time Series"
    ∷ entry "Gorilla" "Time Series"
    ∷ entry "NeaTS" "Time Series"
    ∷ entry "TSXor" "Time Series"
    ∷ entry "B*-GEF (Approx)" "GEF"
    ∷ entry "B*-GEF (Opt)" "GEF"
    ∷ entry "B-GEF (Approx)" "GEF"
    ∷ entry "B-GEF (Opt)" "GEF"
    ∷ entry "RLE-GEF" "GEF"
    ∷ entry "U-GEF (Approx)" "GEF"
    ∷ entry "U-GEF (Opt)" "GEF"
    ∷ entry "PForDelta" "PForDelta"
    ∷ entry "DAC" "DAC"
    ∷ []

unfoldable pub family_shapes : Object Str
family_shapes =
    entry "Block-sorting" "square"
    ∷ entry "Dictionary-based" "diamond"
    ∷ entry "Time Series" "circle"
    ∷ entry "GEF" "triangle-up"
    ∷ entry "PForDelta" "star"
    ∷ entry "DAC" "pentagon"
    ∷ []
