-- ===== src/Tests/Servers.antt =====
-- The cases of backend/internal/compressor/instances_test.go, with whole numbers for those of JSON.
use bit_bench.Prelude.{
  ◌≡◌, refl, inl, inr, ◌↔◌, none, some, [], ◌∷◌, ◌++◌, true, Str, codes, str_eq, All, arith, In,
  Bool, Bool-cases, if◌then◌else◌, ◌≤◌, length, sort, insert, join, ltb, take,
}
use mathlib.Core.Option
use bit_bench.Prelude.Int.{
  ℤ, pos, int_eq, int_eq_iff, itoa, itoa-injective, itoa-IsSigned, IsSigned,
}
use bit_bench.Prelude.Utf8.{utf8, utf8_unit}
use bit_bench.Prelude.Decimal.{decimal}
use bit_bench.Objects.{get, put}
use bit_bench.Options.{
  Numeric, num, number, Schema, Values, CompressorOption, canonical_options, or_default, read,
  value_eq,
}
use bit_bench.Instances.{
  build_invocation, build_label, label_parts, sorted_keys, is_default, label_part, show,
}
use bit_bench.Backend.{
  ok, IsSafe, JsonNumber, any_int, any_float, ServerOption, ServerSchema, ServerValues,
  canonicalize_options, canonicalize_from, option_value, coerce_option, coerce_number, coerce_float,
  within_bounds, below, above,
}
use bit_bench.Backend.Naming.{
  server_build_invocation, server_build_label, truncate_label, label_separator,
}
use bit_bench.Backend.Wire.{receive, received, add_received, sent, Mirrors}
use bit_bench.Backend.Canonical.{canonicalize_options-canonical_options}
use bit_bench.Backend.Plain.{IsRegistered}
use bit_bench.Backend.Invocation.{server_build_invocation-build_invocation}
use bit_bench.Backend.Labels.{server_build_label-build_label}
use bit_bench.Backend.Packages.{server_build_label-default}
use bit_bench.Backend.Acceptance.{Fits, canonicalize_options-ok_iff}

no_semicolon : (s : Str) → All IsSigned s → ¬ (In b';' s)
no_semicolon [] h m = m
no_semicolon (c ∷ s) (p, h) (inl e) = omega arith
no_semicolon (c ∷ s) (p, h) (inr m) = no_semicolon s h m

pub itoa_plain : (a : ℤ) → ¬ (In b';' (itoa a))
itoa_plain a = no_semicolon (itoa a) (itoa-IsSigned a)

instance abbrev pub integers : Numeric ℤ
integers = record {
  num_eq = int_eq;
  to_string = itoa;
  num_eq_iff = int_eq_iff;
  to_string_inj = itoa-injective;
  to_string_plain = itoa_plain;
}

abbrev pub whole : ℤ → Bool
whole z = true

abbrev pub same : ℤ → ℤ
same z = z

pub same_safe : (z : ℤ) → IsSafe z → same (same z) ≡ z
same_safe z h = refl

pub same-whole : (a : ℤ) → whole a ≡ true → IsSafe (same a) → same (same a) ≡ a
same-whole a h h' = refl

pub same_text : (z : ℤ) → IsSafe z → itoa (same z) ≡ itoa z
same_text z h = refl

abbrev pub whole_numbers : JsonNumber ℤ integers
whole_numbers = record {
  is_whole = whole;
  to_int = same;
  of_int = same;
  sprint = itoa;
  to_int-of_int = same_safe;
  of_int-to_int = same-whole;
  to_string-of_int = same_text;
}

abbrev pub server_level : ServerOption ℤ
server_level = record {
  type = codes "number";
  min = some (pos 1);
  max = some (pos 9);
  initial = any_int (pos 6);
  step = some (pos 1);
  options = [];
}

abbrev pub front_level : CompressorOption ℤ
front_level = record {
  type = number;
  min = some (pos 1);
  max = some (pos 9);
  initial = num (pos 6);
  step = some (pos 1);
  options = none;
}

abbrev pub server_gzip : ServerSchema ℤ
server_gzip = (codes "level", server_level) ∷ []

abbrev pub front_gzip : Schema ℤ
front_gzip = (codes "level", front_level) ∷ []

abbrev pub level_9 : Values ℤ
level_9 = (codes "level", num (pos 9)) ∷ []

pub gzip-Mirrors : Mirrors whole_numbers front_gzip server_gzip
unfolding get sent
gzip-Mirrors k = elim (Bool-cases (str_eq k (codes "level"))) [
  | inl e ↦ rw e refl
  | inr e ↦ rw e refl
]

pub gzip-IsRegistered : All (λ e. IsRegistered e.1) server_gzip
gzip-IsRegistered =
    (((λ t. (pos 1, pos 9, refl, refl, omega arith, omega arith)), omega arith, tt), tt)

abbrev pub kept_9 : ServerValues ℤ
kept_9 = (codes "level", any_int (pos 9)) ∷ []

pub accepts_9 : canonicalize_options whole_numbers server_gzip (received level_9) ≡ ok kept_9
unfolding canonicalize_options canonicalize_from option_value coerce_option coerce_number
    coerce_float within_bounds below above received receive add_received get put str_eq
accepts_9 = refl

canonicalize_options-canonical_options_example :
    Option.map (sent whole_numbers) (get (codes "level") kept_9)
    ≡ get (codes "level") (canonical_options front_gzip level_9)
canonicalize_options-canonical_options_example =
    canonicalize_options-canonical_options whole_numbers front_gzip server_gzip level_9 kept_9
      (codes "level") gzip-Mirrors ((λ m. m), tt) ((λ m. m), tt) ((λ m. m), tt)
      ((λ t. (pos 1, pos 9, refl, refl, omega arith, omega arith)), tt) accepts_9

server_build_invocation-build_invocation_example :
    server_build_invocation whole_numbers (codes "gzip") server_gzip kept_9
    ≡ build_invocation (codes "gzip") front_gzip (canonical_options front_gzip level_9)
server_build_invocation-build_invocation_example =
    server_build_invocation-build_invocation whole_numbers (codes "gzip") front_gzip server_gzip
      level_9 kept_9 gzip-Mirrors ((λ m. m), tt) ((λ m. m), tt) ((λ m. m), tt) gzip-IsRegistered
      accepts_9

fits_64 :
    length (utf8 (build_label (codes "gzip") front_gzip (canonical_options front_gzip level_9)))
    ≤ 64
unfolding build_label label_parts sorted_keys sort insert is_default value_eq label_part show join
    canonical_options or_default read get put str_eq utf8 utf8_unit itoa decimal
fits_64 = omega arith

server_build_label-build_label_example :
    server_build_label whole_numbers (codes "gzip") server_gzip kept_9
    ≡ utf8 (build_label (codes "gzip") front_gzip (canonical_options front_gzip level_9))
server_build_label-build_label_example =
    server_build_label-build_label whole_numbers (codes "gzip") front_gzip server_gzip level_9
      kept_9 gzip-Mirrors ((λ m. m), tt) ((λ m. m), tt) ((λ m. m), tt) gzip-IsRegistered
      (omega arith) (omega arith, tt) accepts_9 fits_64

canonicalize_options-ok_iff_example :
    ((values : ServerValues ℤ) × (canonicalize_options whole_numbers server_gzip (received level_9)
        ≡ ok values))
    ↔ All (λ e. Fits whole_numbers e.1 (read e.0 level_9)) server_gzip
canonicalize_options-ok_iff_example =
    canonicalize_options-ok_iff whole_numbers server_gzip level_9 ((λ m. m), tt)

abbrev from_json : ServerOption ℤ
from_json = record server_level { initial = any_float (pos 6) }

server_build_label-default_example :
    (build_label
        (codes "lz")
        ((codes "level", front_level) ∷ [])
        ((codes "level", num (pos 6)) ∷ [])
      ≡ (if ltb 64 (length (codes "lz")) then take 64 (codes "lz") else codes "lz"))
    × ((values : ServerValues ℤ) × (canonicalize_options whole_numbers
            ((codes "level", from_json) ∷ [])
            (received ((codes "level", num (pos 6)) ∷ []))
          ≡ ok values)
        × (server_build_label whole_numbers (codes "lz") ((codes "level", from_json) ∷ []) values
            ≡ truncate_label
                (codes "lz" ++ label_separator ++ (codes "level" ++ codes " " ++ itoa (pos 6)))))
server_build_label-default_example =
    server_build_label-default whole_numbers (codes "lz") (codes "level") from_json front_level
      (pos 6) refl refl refl refl (unfold below in refl) (unfold above in refl)
