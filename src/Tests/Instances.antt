-- ===== src/Tests/Instances.antt =====
-- The cases of lib/instances.test.ts.
use bit_bench.Prelude.{ℕ, ◌≡◌, refl, true, false, none, some, [], ◌∷◌, codes}
use bit_bench.Options.{Schema, Values, number, boolean, select, bool, num, str}
use bit_bench.Options.Naturals.{naturals}
use bit_bench.Options.{canonical_options, default_options, read}
use bit_bench.Objects.{get, put}
use bit_bench.Prelude.Decimal.{decimal}
use bit_bench.Prelude.{insert, join, str_eq, has}
use bit_bench.Instances.{
  InstanceDraft, Registry, build_label, build_invocation, instance_identity, can_add_instance,
  validate_instances, label_part, is_default, show, nothing_selected, duplicate,
  name_encoded_options, native_options,
}

abbrev pub gzip_schema : Schema ℕ
gzip_schema =
    (
      codes "level",
      record {
        type = number;
        min = some 1;
        max = some 9;
        initial = num 6;
        step = some 1;
        options = none;
      },
    )
    ∷ []

abbrev pub neats_schema : Schema ℕ
neats_schema =
    (
      codes "max_bpc",
      record {
        type = number;
        min = some 0;
        max = some 64;
        initial = num 32;
        step = some 1;
        options = none;
      },
    )
    ∷ (
      codes "lossy",
      record {
        type = boolean;
        min = none;
        max = none;
        initial = bool false;
        step = none;
        options = none;
      },
    )
    ∷ []

abbrev pfor_schema : Schema ℕ
pfor_schema =
    (
      codes "codec",
      record {
        type = select;
        min = none;
        max = none;
        initial = str (codes "simdnewpfor");
        step = none;
        options = some (codes "simdnewpfor" ∷ codes "pfor" ∷ []);
      },
    )
    ∷ []

abbrev pub level : ℕ → Values ℕ
level k = (codes "level", num k) ∷ []

abbrev pub lossy_16 : Values ℕ
lossy_16 = (codes "max_bpc", num 16) ∷ (codes "lossy", bool true) ∷ []

abbrev pub gzip : ℕ → InstanceDraft ℕ
gzip k = record { name = codes "gzip"; options = level k }

abbrev pub gorilla : InstanceDraft ℕ
gorilla = record { name = codes "gorilla"; options = [] }

abbrev pub registry : Registry ℕ
registry = (codes "gzip", gzip_schema) ∷ (codes "gorilla", []) ∷ []

labels :
    (build_label (codes "gzip") gzip_schema (level 9) ≡ codes "gzip · level 9")
    × (build_label (codes "gzip") gzip_schema (level 6) ≡ codes "gzip")
    × (build_label (codes "neats") neats_schema lossy_16 ≡ codes "neats · lossy · max_bpc 16")
unfolding build_label read get insert join label_part is_default decimal str_eq
labels = (refl, refl, refl)

invocations :
    (build_invocation (codes "gzip") gzip_schema (level 9) ≡ codes "gzip=level:9")
    × (build_invocation (codes "gzip") gzip_schema (level 6) ≡ codes "gzip")
    × (build_invocation (codes "neats") neats_schema lossy_16 ≡ codes "neats=lossy:true;max_bpc:16")
    × (build_invocation (codes "pfordelta") pfor_schema ((codes "codec", str (codes "pfor")) ∷ [])
        ≡ codes "pfordelta_pfor")
unfolding build_invocation read get join is_default decimal str_eq has native_options show
invocations = (refl, refl, refl, refl)

additions :
    (can_add_instance (codes "gzip") gzip_schema false 1 1 ≡ true)
    × (can_add_instance (codes "pfordelta") pfor_schema false 1 1 ≡ true)
    × (can_add_instance {Num = ℕ} (codes "gorilla") [] false 0 0 ≡ true)
    × (can_add_instance {Num = ℕ} (codes "gorilla") [] false 1 1 ≡ false)
    × (can_add_instance (codes "gzip") gzip_schema false 1 64 ≡ false)
unfolding can_add_instance get has native_options name_encoded_options str_eq
additions = (refl, refl, refl, refl, refl)

pub validations :
    (validate_instances [] registry [] ≡ some nothing_selected)
    × (validate_instances (gzip 9 ∷ gzip 9 ∷ []) registry [] ≡ some (duplicate (codes "gzip")))
    × (validate_instances (gzip 9 ∷ gzip 1 ∷ gorilla ∷ []) registry [] ≡ none)
unfolding validate_instances instance_identity build_invocation get read join is_default decimal
    str_eq has native_options show
validations = (refl, refl, refl)

canonical :
    (canonical_options gzip_schema ((codes "level", num 9) ∷ (codes "nope", bool true) ∷ [])
      ≡ level 9)
    × (canonical_options neats_schema ((codes "lossy", bool true) ∷ [])
        ≡ (codes "max_bpc", num 32) ∷ (codes "lossy", bool true) ∷ [])
    × (default_options gzip_schema ≡ level 6)
unfolding canonical_options default_options put read get str_eq
canonical = (refl, refl, refl)
