-- ===== src/Compressors.antt =====
-- Names, colours and marker shapes of compressors (lib/compressors.ts).
pub mod Tables
pub mod Labels
pub mod Laws
use bit_bench.Prelude.{
  Option, none, some, [], ◌++◌, Str, codes, length, take, drop, index_of, to_lower, str_eq, ◌+◌,
  if◌then◌else◌,
}
use bit_bench.Objects.{get}
use Tables.{compressor_renames, compressor_colors, compressor_families, family_shapes}

abbrev pub label_separator : Str
label_separator = codes " · "

pub record Label : Type 0 where
  pub base : Str
  pub config : Str

-- `splitCompressorLabel`
unfoldable pub split_compressor_label : Str → Label
split_compressor_label name = elim (index_of label_separator name) [
  | none ↦ record { base = name; config = [] }
  | some idx ↦ record { base = take idx name; config = drop (idx + length label_separator) name }
]

-- `s || other` on strings: the empty string is falsy.
unfoldable pub or_else : Option Str → Str → Str
or_else none other = other
or_else (some s) other = if str_eq s [] then other else s

-- `COMPRESSOR_RENAMES[base.toLowerCase()] || base`
unfoldable pub display_base : Str → Str
unfolding or_else
display_base base = or_else (get (to_lower base) compressor_renames) base

-- `config ? renamed + LABEL_SEPARATOR + config : renamed`
unfoldable pub relabel : Str → Str → Str
relabel renamed config = if str_eq config [] then renamed else renamed ++ label_separator ++ config

unfoldable pub rename_compressor : Str → Str
unfolding relabel
rename_compressor name =
    let label = split_compressor_label name in relabel (display_base label.base) label.config

unfoldable pub get_compressor_color : Str → Str
unfolding or_else
get_compressor_color name =
    let display = rename_compressor (split_compressor_label name).base in
    or_else (get display compressor_colors) (codes "#64748b")

-- `family && FAMILY_SHAPES[family]`
unfoldable pub shape_of_family : Option Str → Option Str
shape_of_family none = none
shape_of_family (some family) = if str_eq family [] then none else get family family_shapes

unfoldable pub get_compressor_shape : Str → Str
unfolding or_else shape_of_family
get_compressor_shape name =
    let display = rename_compressor (split_compressor_label name).base in
    or_else (shape_of_family (get display compressor_families)) (codes "circle")
