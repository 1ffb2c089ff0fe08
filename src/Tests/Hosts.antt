-- ===== src/Tests/Hosts.antt =====
-- The theorems on platforms at the packages of lib/platforms.test.ts.
use bit_bench.Prelude.{
  ◌≡◌, ◌↔◌, refl, none, some, [], ◌∷◌, Str, codes, In, AllDistinct, split, trim, to_lower, str_eq,
}
use bit_bench.Objects.{Object, get}
use bit_bench.Platforms.{
  normalize_platform, emulated_selection, option_eq, platform_of_parts, arch_platform,
  platform_amd64, platform_arm64,
}
use bit_bench.Platforms.Selection.{names, IsForeign, emulated_selection_iff}

abbrev packages : Object Str
packages = (codes "fast", codes "linux/arm64") ∷ (codes "slow", codes "linux/amd64") ∷ []

emulated_selection_iff_example :
    AllDistinct (
      names (
        emulated_selection
          (codes "fast" ∷ codes "fast" ∷ codes "slow" ∷ [])
          packages
          (some (codes "linux/amd64"))))
    × ((k : Str)
        → In k (
            names (
              emulated_selection
                (codes "fast" ∷ codes "fast" ∷ codes "slow" ∷ [])
                packages
                (some (codes "linux/amd64"))))
          ↔ (In k (codes "fast" ∷ codes "fast" ∷ codes "slow" ∷ [])
              × IsForeign packages (some (codes "linux/amd64")) k))
emulated_selection_iff_example =
    emulated_selection_iff packages (some (codes "linux/amd64"))
      (codes "fast" ∷ codes "fast" ∷ codes "slow" ∷ [])

fast_known : normalize_platform (get (codes "fast") packages) ≡ some (codes "linux/arm64")
unfolding normalize_platform platform_of_parts arch_platform option_eq get str_eq split trim
    to_lower platform_arm64 platform_amd64
fast_known = refl

no_host : normalize_platform (some []) ≡ none
unfolding normalize_platform str_eq
no_host = refl
