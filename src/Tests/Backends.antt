-- ===== src/Tests/Backends.antt =====
-- The theorems on the server's platforms, labels and requests at concrete inputs.
use bit_bench.Prelude.{
  ◌≡◌, refl, ◌⊎◌, inl, inr, ◌↔◌, Option, none, some, [], ◌∷◌, false, not, Str, codes, str_eq, All,
  arith, In, ◌≤◌, ◌<◌, length, trim, to_lower, split, has,
}
use bit_bench.Prelude.Int.{ℤ}
use bit_bench.Objects.{get}
use bit_bench.Platforms.{normalize_platform, platform_amd64, platform_arm64, is_emulated}
use bit_bench.Instances.{InstanceDraft, Registry, schema_of, validate_instances}
use bit_bench.Backend.{Result, ok}
use bit_bench.Backend.Naming.{with_unique_label}
use bit_bench.Backend.Strings.{is_ascii, trim_space, go_lower}
use bit_bench.Backend.Hosts.{
  server_normalize_platform, server_normalize_platform_iff, resolve_platform,
  resolve_platform-is_emulated, variant,
}
use bit_bench.Backend.Unique.{with_unique_label_lem}
use bit_bench.Backend.Resolve.{
  ServerPackage, ResolvedInstance, ResolveError, Server, resolve_instances,
}
use bit_bench.Backend.Duplicates.{
  IsAccepted, request, canonical, IsResolved, resolve_instances-validate_instances,
}
use bit_bench.Backend.Resolve.{
  resolve_from, resolve_one, resolve_named, find_compressor, canonicalized, remember, labelled,
  platform_of, runs_emulated,
}
use bit_bench.Backend.Distinct.{labels, resolve_instances-labels}
use bit_bench.Backend.Wire.{received, receive, add_received}
use bit_bench.Backend.{
  canonicalize_options, canonicalize_from, option_value, coerce_option, coerce_number, coerce_float,
  within_bounds, below, above,
}
use bit_bench.Backend.Naming.{
  server_build_invocation, server_invocation_parts, server_codec_base, native_option_keys,
  server_build_label, server_label_parts, truncate_label, value_part, format_option_value,
  unchanged, any_eq,
}
use bit_bench.Objects.{put}
use bit_bench.Prelude.{AllDistinct, sort, insert, join}
use bit_bench.Prelude.Int.{itoa}
use bit_bench.Prelude.Decimal.{decimal}
use bit_bench.Tests.Servers.{
  integers, whole_numbers, server_gzip, front_gzip, level_9, kept_9, gzip-Mirrors,
  gzip-IsRegistered, accepts_9,
}

abbrev same_text : Str → Str
same_text s = s

server_normalize_platform_iff_example :
    (server_normalize_platform same_text (codes "linux/arm64/v8") ≡ ok (codes "linux/arm64")) ↔ (
      (normalize_platform (some (codes "linux/arm64/v8")) ≡ some (codes "linux/arm64"))
      × ((variant (split b'/' (to_lower (trim (codes "linux/arm64/v8")))) ≡ [])
          ⊎ ((codes "linux/arm64" ≡ platform_arm64)
              × (variant (split b'/' (to_lower (trim (codes "linux/arm64/v8")))) ≡ codes "v8"))))
server_normalize_platform_iff_example =
    server_normalize_platform_iff same_text (codes "linux/arm64/v8") (codes "linux/arm64")
      (unfold is_ascii in refl)

normalizes_arm :
    server_normalize_platform same_text (codes "linux/aarch64") ≡ ok (codes "linux/arm64")
unfolding server_normalize_platform trim_space go_lower is_ascii split to_lower trim str_eq
normalizes_arm = refl

resolve_platform-is_emulated_example :
    not (str_eq (resolve_platform same_text (codes "linux/aarch64") platform_amd64) platform_amd64)
    ≡ is_emulated (some (codes "linux/aarch64")) (some platform_amd64)
resolve_platform-is_emulated_example =
    resolve_platform-is_emulated same_text (codes "linux/aarch64") (unfold is_ascii in refl)
      platform_amd64 (inl refl) (inr (codes "linux/arm64", normalizes_arm))

with_unique_label_lem_example :
    (new : Str) × (with_unique_label (codes "lz") (codes "lz" ∷ [])
      ≡ some (new, new ∷ codes "lz" ∷ []))
    × (¬ (In new (codes "lz" ∷ [])))
    × (length new ≤ 64)
    × (¬ (In (codes "lz") (codes "lz" ∷ [])) → new ≡ codes "lz")
with_unique_label_lem_example =
    with_unique_label_lem (codes "lz") (codes "lz" ∷ []) (omega arith) (omega arith)

abbrev no_package : Str → Result ResolveError (Option (ServerPackage ℤ))
no_package name = ok none

abbrev no_text : {A : Type 0} → A → Str
no_text a = []

abbrev small_server : Server ℤ integers
small_server = record {
  numbers = whole_numbers;
  registry = (codes "gzip", server_gzip) ∷ [];
  find_visible_ready_by_name = no_package;
  marshal = no_text;
  max_parallelism = 4;
  host = codes "linux/amd64";
  lower = same_text;
}

abbrev small_registry : Registry ℤ
small_registry = (codes "gzip", front_gzip) ∷ []

abbrev gzip_9 : InstanceDraft ℤ
gzip_9 = record { name = codes "gzip"; options = level_9 }

gzip-IsAccepted : IsAccepted small_server small_registry [] gzip_9
unfolding go_lower trim_space is_ascii to_lower trim str_eq get has schema_of
gzip-IsAccepted = record {
  schema = server_gzip;
  values = kept_9;
  lower = refl;
  trimmed = refl;
  named = refl;
  built_in = refl;
  not_custom = refl;
  mirrors = gzip-Mirrors;
  front_object = ((λ m. m), tt);
  schema_object = ((λ m. m), tt);
  options_object = ((λ m. m), tt);
  registered = gzip-IsRegistered;
  accepted = accepts_9;
}

resolve_instances-validate_instances_example :
    IsResolved small_server small_registry [] (gzip_9 ∷ gzip_9 ∷ []) ↔ (
      validate_instances
        (canonical small_registry gzip_9 ∷ canonical small_registry gzip_9 ∷ [])
        small_registry
        []
      ≡ none)
resolve_instances-validate_instances_example =
    resolve_instances-validate_instances small_server small_registry [] (gzip_9 ∷ gzip_9 ∷ [])
      (gzip-IsAccepted, (gzip-IsAccepted, tt))

abbrev stored_9 : ResolvedInstance ℤ
stored_9 = record {
  name = codes "gzip";
  options = kept_9;
  label = 103 ∷ 122 ∷ 105 ∷ 112 ∷ 32 ∷ 194 ∷ 183 ∷ 32 ∷ codes "level 9";
  platform = none;
  emulated = false;
}

resolves_9 : resolve_instances small_server (request gzip_9 ∷ []) ≡ ok (stored_9 ∷ [])
unfolding resolve_instances resolve_from resolve_one resolve_named find_compressor canonicalized
    remember labelled platform_of runs_emulated canonicalize_options canonicalize_from option_value
    coerce_option coerce_number coerce_float within_bounds below above received receive add_received
    get put str_eq go_lower trim_space is_ascii to_lower trim has server_build_invocation
    server_invocation_parts server_codec_base native_option_keys server_build_label
    server_label_parts truncate_label value_part format_option_value unchanged any_eq
    with_unique_label sort insert join itoa decimal
resolves_9 = refl

resolve_instances-labels_example :
    (1 ≡ length (request gzip_9 ∷ []))
    × (0 < 1)
    × (1 ≤ 64)
    × AllDistinct (labels (stored_9 ∷ []))
    × All (λ l. length l ≤ 64) (labels (stored_9 ∷ []))
resolve_instances-labels_example =
    resolve_instances-labels small_server (request gzip_9 ∷ []) (stored_9 ∷ []) resolves_9
