-- ===== src/Tests/Configurations.antt =====
-- The theorems on configurations at the schemas of lib/instances.test.ts.
use bit_bench.Prelude.{
  ◌≡◌, refl, ◌↔◌, ℕ, ◌≤◌, ◌<◌, none, [], ◌∷◌, codes, In, AllDistinct, has, str_eq,
}
use bit_bench.Objects.{get}
use bit_bench.Options.{read, canonical_options}
use bit_bench.Options.Naturals.{naturals}
use bit_bench.Options.Laws.{expected, get-canonical_options}
use bit_bench.Instances.{build_invocation, invocation_base, validate_instances}
use bit_bench.Instances.Invocation.{SameEffective, build_invocation-eq_iff}
use bit_bench.Instances.Validation.{identities, validate_instances-eq-none_iff}
use bit_bench.Instances.Blame.{validate_instances-duplicate}
use bit_bench.Prelude.{List, ◌++◌}
use bit_bench.Instances.{InstanceDraft, identity_of}
use bit_bench.Tests.Evidence.{absent, all_distinct, distinct_names}
use bit_bench.Tests.Instances.{
  gzip_schema, neats_schema, level, lossy_16, gzip, gorilla, registry, validations,
}

gzip_plain : (k : ℕ) → ¬ (In b'=' (invocation_base (codes "gzip") (level k)))
unfolding invocation_base str_eq
gzip_plain k = absent b'=' (codes "gzip") refl

build_invocation-eq_iff_example :
    (build_invocation (codes "gzip") gzip_schema (level 9)
      ≡ build_invocation (codes "gzip") gzip_schema (level 6))
    ↔ ((invocation_base (codes "gzip") (level 9) ≡ invocation_base (codes "gzip") (level 6))
        × SameEffective gzip_schema (level 9) (level 6))
build_invocation-eq_iff_example =
    build_invocation-eq_iff gzip_schema ((λ m. m), tt) (codes "gzip") (level 9) (level 6)
      ((λ h. unfold read get str_eq in tt), tt) ((λ h. unfold read get str_eq in tt), tt)
      (gzip_plain 9) (gzip_plain 6)

validate_instances-eq-none_iff_example :
    (validate_instances (gzip 9 ∷ gzip 1 ∷ gorilla ∷ []) registry [] ≡ none)
    ↔ ((0 < 3) × (3 ≤ 64) × AllDistinct (identities registry [] (gzip 9 ∷ gzip 1 ∷ gorilla ∷ [])))
validate_instances-eq-none_iff_example =
    validate_instances-eq-none_iff registry [] (gzip 9 ∷ gzip 1 ∷ gorilla ∷ [])

get-canonical_options_example :
    get (codes "max_bpc") (canonical_options neats_schema lossy_16)
    ≡ expected (get (codes "max_bpc") neats_schema) (read (codes "max_bpc") lossy_16)
get-canonical_options_example =
    get-canonical_options neats_schema lossy_16 (codes "max_bpc") (
      all_distinct (codes "max_bpc" ∷ codes "lossy" ∷ [])
        (unfold distinct_names has str_eq in refl))

validate_instances-duplicate_example :
    (before : List (InstanceDraft ℕ)) × (inst : InstanceDraft ℕ) × (after : List (InstanceDraft ℕ))
    × (gzip 9 ∷ gzip 9 ∷ [] ≡ before ++ inst ∷ after)
    × (inst.name ≡ codes "gzip")
    × In (identity_of registry [] inst) (identities registry [] before)
validate_instances-duplicate_example =
    validate_instances-duplicate registry [] (gzip 9 ∷ gzip 9 ∷ []) (codes "gzip") validations.1
