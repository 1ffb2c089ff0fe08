-- ===== src/Picker.antt =====
-- The compressor picker of the upload page (pages/UploadPage.tsx): the families of built-in
-- compressors, the names of user packages, and the search. Lower case is that of ASCII.
pub mod Laws
use bit_bench.Prelude.{
  ℕ, ◌≡◌, Option, none, some, List, [], ◌∷◌, ◌++◌, Bool, true, false, not, ◌&&◌, ◌||◌, Str, codes,
  str_eq, str_lt, has, if◌then◌else◌, keep, length, ltb, index_of, to_lower, trim, sort,
}
use bit_bench.Objects.{keys}
use bit_bench.Instances.{InstanceDraft, Registry}

pub record CompressorFamily : Type 0 where
  pub name : Str
  pub compressors : List Str

-- `FAMILIES`
unfoldable pub families : List CompressorFamily
families =
    record {
      name = codes "Time Series";
      compressors =
          codes "gorilla"
          ∷ codes "chimp"
          ∷ codes "chimp128"
          ∷ codes "tsxor"
          ∷ codes "elf"
          ∷ codes "alp"
          ∷ codes "neats"
          ∷ codes "camel"
          ∷ codes "falcon"
          ∷ [];
    }
    ∷ record {
      name = codes "GEF";
      compressors =
          codes "rle_gef"
          ∷ codes "u_gef_approximate"
          ∷ codes "u_gef_optimal"
          ∷ codes "b_gef_approximate"
          ∷ codes "b_gef_optimal"
          ∷ codes "b_star_gef_approximate"
          ∷ codes "b_star_gef_optimal"
          ∷ [];
    }
    ∷ record { name = codes "Block-sorting"; compressors = codes "bzip2" ∷ codes "bzip3" ∷ [] }
    ∷ record {
      name = codes "Dictionary-based";
      compressors =
          codes "brotli"
          ∷ codes "gzip"
          ∷ codes "lz4"
          ∷ codes "snappy"
          ∷ codes "xz"
          ∷ codes "zstd"
          ∷ [];
    }
    ∷ record { name = codes "Others"; compressors = codes "dac" ∷ codes "pfordelta" ∷ [] }
    ∷ []

-- `families.flatMap((f) => f.compressors)`
unfoldable pub names_of : List CompressorFamily → List Str
names_of [] = []
names_of (f ∷ fs) = f.compressors ++ names_of fs

-- The names in the registry that no family holds.
unfoldable pub custom_names : {Num : Type 0} → Registry Num → List Str
unfolding names_of families
custom_names registry = keep (λ c. not (has c (names_of families))) (keys registry)

-- `c.toLowerCase().includes(query)`
unfoldable pub includes : Str → Str → Bool
includes query c = elim (index_of query (to_lower c)) [ none ↦ false | some i ↦ true ]

unfoldable pub matches : Str → Str → Bool
unfolding includes
matches query c = str_eq query [] || includes query c

-- The families with the compressors that pass, and without those that have none.
unfoldable pub grids : (Str → Bool) → List CompressorFamily → List CompressorFamily
grids shown [] = []
grids shown (f ∷ fs) =
    let here = keep shown f.compressors in
    let rest = grids shown fs in
    if ltb 0 (length here) then record f { compressors = here } ∷ rest else rest

unfoldable pub with_custom : List Str → List CompressorFamily → List CompressorFamily
with_custom custom fs =
    if ltb 0 (length custom)
    then record { name = codes "Custom"; compressors = custom } ∷ fs
    else fs

unfoldable pub picker_families : {Num : Type 0} → Registry Num → Str → List CompressorFamily
unfolding grids with_custom custom_names matches
picker_families registry search_text =
    let query = to_lower (trim search_text) in
    let shown : Str → Bool = λ c. has c (keys registry) && matches query c in
    with_custom (sort str_lt (keep (matches query) (custom_names registry))) (grids shown families)

-- How many instances of a compressor are configured.
unfoldable pub instance_count : {Num : Type 0} → List (InstanceDraft Num) → Str → ℕ
instance_count instances name = length (keep (λ i. str_eq i.name name) instances)
