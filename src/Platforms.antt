-- ===== src/Platforms.antt =====
-- Target platforms of compressor packages and CPU emulation (lib/platforms.ts). A missing
-- string (`undefined` or `null`) is `none`.
pub mod Laws
pub mod Selection
use bit_bench.Prelude.{
  ℕ, Option, none, some, List, [], ◌∷◌, Bool, true, false, not, ◌&&◌, ◌||◌, Str, codes, str_eq, has,
  to_lower, trim, split, length, ltb, if◌then◌else◌, get_elem?, keep,
}
use bit_bench.Objects.{Object, get}

unfoldable pub platform_amd64 : Str
platform_amd64 = codes "linux/amd64"

unfoldable pub platform_arm64 : Str
platform_arm64 = codes "linux/arm64"

-- `===` on strings that may be missing
unfoldable pub option_eq : Option Str → Option Str → Bool
option_eq none none = true
option_eq (some s) (some t) = str_eq s t
option_eq _ _ = false

unfoldable pub arch_platform : Option Str → Option Str
unfolding option_eq platform_amd64 platform_arm64
arch_platform arch =
    if option_eq arch (some (codes "amd64")) || option_eq arch (some (codes "x86_64"))
    then some platform_amd64
    else (if option_eq arch (some (codes "arm64")) || option_eq arch (some (codes "aarch64"))
        then some platform_arm64
        else none)

unfoldable pub platform_of_parts : List Str → Option Str
platform_of_parts parts =
    if ltb (length parts) 2
      || ltb 3 (length parts)
      || not (option_eq (get_elem? parts 0) (some (codes "linux")))
    then none
    else arch_platform (get_elem? parts 1)

unfoldable pub normalize_platform : Option Str → Option Str
normalize_platform none = none
normalize_platform (some platform) =
    if str_eq platform [] then none else platform_of_parts (split b'/' (to_lower (trim platform)))

-- `target !== null && host !== null && target !== host`
unfoldable pub differ : Option Str → Option Str → Bool
differ (some target) (some host) = not (str_eq target host)
differ _ _ = false

unfoldable pub is_emulated : Option Str → Option Str → Bool
unfolding differ
is_emulated platform host = differ (normalize_platform platform) (normalize_platform host)

-- `platform || 'unknown'`
unfoldable pub or_unknown : Option Str → Str
or_unknown none = codes "unknown"
or_unknown (some s) = if str_eq s [] then codes "unknown" else s

-- `normalized.split('/')[1]`, which both normalized platforms have.
unfoldable pub arch_of : Str → Str
arch_of platform = elim (get_elem? (split b'/' platform) 1) [ none ↦ [] | some arch ↦ arch ]

unfoldable pub platform_arch : Option Str → Str
unfolding or_unknown arch_of
platform_arch platform = elim (normalize_platform platform) [
  | none ↦ or_unknown platform
  | some normalized ↦ arch_of normalized
]

pub record Emulated : Type 0 where
  pub name : Str
  pub platform : Str

-- The loop of `emulatedSelection` over the names of the selected instances. The object holds no
-- entry for a package whose platform is unknown.
unfoldable pub emulated_from : List Str → List Str → Object Str → Option Str → List Emulated
emulated_from seen [] platform_by_package host = []
emulated_from seen (name ∷ rest) platform_by_package host =
    elim (normalize_platform (get name platform_by_package)) [
      | none ↦ emulated_from seen rest platform_by_package host
      | some platform ↦
          if option_eq (some platform) (normalize_platform host) || has name seen
          then emulated_from seen rest platform_by_package host
          else record { name = name; platform = platform }
            ∷ emulated_from (name ∷ seen) rest platform_by_package host
    ]

unfoldable pub emulated_selection : List Str → Object Str → Option Str → List Emulated
unfolding emulated_from
emulated_selection names platform_by_package host = emulated_from [] names platform_by_package host
