-- ===== src/Backend/Hosts.antt =====
-- Platforms on the server (backend/internal/compressor/platform.go).
use bit_bench.Prelude.{
  ◌≡◌, refl, ◌⊎◌, inl, inr, ◌↔◌, none, some, List, [], ◌∷◌, ◌++◌, not, ◌&&◌, ◌||◌, Str, codes,
  str_eq, str_eq_iff, str_eq_refl, sym, ◌∙◌, ap, split, trim, to_lower, length, ltb, if◌then◌else◌,
  arith, Bool-cases, true,
}
use bit_bench.Platforms.{
  differ, is_emulated, platform_amd64, platform_arm64, option_eq, arch_platform, platform_of_parts,
  normalize_platform,
}
use bit_bench.Platforms.Laws.{known_fixed}
use bit_bench.Backend.Strings.{is_ascii, trim_space, go_lower, trim_space-ascii, go_lower-trim}
use bit_bench.Backend.{Result, ok, error}

pub data PlatformError : Type 0 where
  invalid_platform unsupported_os amd64_variant arm64_variant unsupported_platform : PlatformError

unfoldable server_amd64 : Str
server_amd64 = codes "linux/amd64"

unfoldable server_arm64 : Str
server_arm64 = codes "linux/arm64"

-- The variant behind the second slash; a missing one and an empty one are let through.
unfoldable pub variant : List Str → Str
variant (os ∷ arch ∷ v ∷ []) = v
variant parts = []

unfoldable platform_of_arch : Str → Str → Result PlatformError Str
unfolding server_amd64 server_arm64
platform_of_arch arch v =
    if str_eq arch (codes "amd64") || str_eq arch (codes "x86_64")
    then (if not (str_eq v []) then error amd64_variant else ok server_amd64)
    else (if str_eq arch (codes "arm64") || str_eq arch (codes "aarch64")
        then (if not (str_eq v []) && not (str_eq v (codes "v8"))
            then error arm64_variant
            else ok server_arm64)
        else error unsupported_platform)

unfoldable server_platform_of_parts : List Str → Result PlatformError Str
unfolding platform_of_arch variant
server_platform_of_parts (os ∷ arch ∷ rest) =
    if ltb 3 (length (os ∷ arch ∷ rest))
    then error invalid_platform
    else (if not (str_eq os (codes "linux"))
        then error unsupported_os
        else platform_of_arch arch (variant (os ∷ arch ∷ rest)))
server_platform_of_parts parts = error invalid_platform

-- `NormalizePlatform`, with the small letters of a text that is not ASCII as a parameter
unfoldable pub server_normalize_platform : (Str → Str) → Str → Result PlatformError Str
unfolding server_platform_of_parts go_lower trim_space
server_normalize_platform lower platform =
    server_platform_of_parts (split b'/' (go_lower lower (trim_space platform)))

abbrev pub or_host : Str → Result PlatformError Str → Str
or_host host (ok platform) = platform
or_host host (error e) = host

-- `ResolvePlatform`
unfoldable pub resolve_platform : (Str → Str) → Str → Str → Str
unfolding server_normalize_platform trim_space
resolve_platform lower declared host_platform =
    if str_eq (trim_space declared) []
    then host_platform
    else or_host host_platform (server_normalize_platform lower declared)

-- `HostPlatform`
unfoldable pub host_platform : Str → Str → Str
unfolding server_amd64 server_arm64
host_platform goos arch =
    if str_eq arch (codes "x86_64") || str_eq arch (codes "amd64")
    then server_amd64
    else (if str_eq arch (codes "aarch64") || str_eq arch (codes "arm64")
        then server_arm64
        else (if str_eq goos [] then codes "linux" else goos) ++ codes "/" ++ arch)

-- The variants that the server accepts: none, and v8 of arm64.
abbrev AllowsVariant : Str → Str → Type 0
AllowsVariant platform v = (v ≡ []) ⊎ ((platform ≡ platform_arm64) × (v ≡ codes "v8"))

abbrev parts_of : Str → List Str
parts_of platform = split b'/' (to_lower (trim platform))

platform_of_arch_iff :
    (arch v p : Str)
    → (platform_of_arch arch v ≡ ok p) ↔ ((arch_platform (some arch) ≡ some p) × AllowsVariant p v)
unfolding platform_of_arch arch_platform option_eq server_amd64 server_arm64 platform_amd64
    platform_arm64
platform_of_arch_iff arch v p = ground (arith, str_eq_iff v [], str_eq_iff v (codes "v8"))

server_platform_of_parts_iff :
    (parts : List Str) (p : Str)
    → (server_platform_of_parts parts ≡ ok p)
      ↔ ((platform_of_parts parts ≡ some p) × AllowsVariant p (variant parts))
unfolding server_platform_of_parts platform_of_parts option_eq
server_platform_of_parts_iff [] p = ground arith
server_platform_of_parts_iff (os ∷ []) p = ground arith
server_platform_of_parts_iff (os ∷ arch ∷ rest) p =
    ground (arith, platform_of_arch_iff arch (variant (os ∷ arch ∷ rest)) p)

not_ok : (e : PlatformError) (p : Str) → error e ≡ ok p → ⊥
not_ok e p h = cc

no_parts : (p : Str) → server_platform_of_parts (parts_of []) ≡ ok p → ⊥
unfolding server_platform_of_parts split to_lower trim
no_parts p h = cc

-- On ASCII the server splits the text that the front end splits.
server_normalize_platform-ascii :
    (lower : Str → Str) (platform : Str)
    → is_ascii platform ≡ true
    → server_normalize_platform lower platform ≡ server_platform_of_parts (parts_of platform)
unfolding server_normalize_platform
server_normalize_platform-ascii lower platform ascii =
    ap (λ t. server_platform_of_parts (split b'/' t)) (go_lower-trim lower platform ascii)

-- The server normalizes a platform in ASCII exactly when the front end does, to the same one, and
-- the variant behind a second slash is empty, or is v8 for linux/arm64.
pub server_normalize_platform_iff :
    (lower : Str → Str) (platform p : Str)
    → is_ascii platform ≡ true
    → (server_normalize_platform lower platform ≡ ok p) ↔ (
        (normalize_platform (some platform) ≡ some p)
        × AllowsVariant p (variant (parts_of platform)))
unfolding normalize_platform
server_normalize_platform_iff lower platform p ascii =
    rw (server_normalize_platform-ascii lower platform ascii)
      (elim (Bool-cases (str_eq platform [])) [
        | inl e ↦
            let empty = (str_eq_iff platform []).0 e in
            (
              (λ h. absurd (no_parts p (rw empty at h))),
              (λ ((q, a) : (_ ≡ some p) × AllowsVariant p _). cc (rw e at q)),
            )
        | inr e ↦ rw e (server_platform_of_parts_iff (parts_of platform) p)
      ])

known_host :
    (host : Str)
    → (host ≡ platform_amd64) ⊎ (host ≡ platform_arm64)
    → normalize_platform (some host) ≡ some host
known_host host (inl e) = known_fixed (some host) (inl (ap some e))
known_host host (inr e) = known_fixed (some host) (inr (ap some e))

blank_unknown :
    (s : Str) → trim s ≡ [] → server_platform_of_parts (parts_of s) ≡ error invalid_platform
unfolding server_platform_of_parts split to_lower
blank_unknown s e = rw e refl

module _ (lower : Str → Str) (declared : Str) (ascii : is_ascii declared ≡ true) where
  resolved_known :
      (host p : Str)
      → server_normalize_platform lower declared ≡ ok p
      → resolve_platform lower declared host ≡ p
  unfolding resolve_platform
  resolved_known host p e = elim (Bool-cases (str_eq (trim_space declared) [])) [
    | inl b ↦
        let empty =
          sym (trim_space-ascii declared ascii) ∙ (str_eq_iff (trim_space declared) []).0 b in
        let blank = blank_unknown declared empty in
        absurd
          (not_ok _ p (sym blank ∙ sym (server_normalize_platform-ascii lower declared ascii) ∙ e))
    | inr b ↦ rw (b, e) refl
  ]

  resolved_unknown :
      (host : Str)
      → normalize_platform (some declared) ≡ none
      → resolve_platform lower declared host ≡ host
  unfolding resolve_platform
  resolved_unknown host e = elim (Bool-cases (str_eq (trim_space declared) [])) [
    | inl b ↦ rw b refl
    | inr b ↦ rw b (refused (server_normalize_platform lower declared) refl)
  ]
    where
      refused :
          (r : Result PlatformError Str)
          → server_normalize_platform lower declared ≡ r
          → or_host host r ≡ host
      refused (ok p) h = cc (e, ((server_normalize_platform_iff lower declared p ascii).0 h).0)
      refused (error x) h = refl

  -- On a host that is linux/amd64 or linux/arm64, the server records emulation exactly where the
  -- front end warns of it, for a platform in ASCII that the front end does not know or that the
  -- server normalizes.
  pub resolve_platform-is_emulated :
      (host : Str)
      → (host ≡ platform_amd64) ⊎ (host ≡ platform_arm64)
      → (normalize_platform (some declared) ≡ none)
        ⊎ ((p : Str) × (server_normalize_platform lower declared ≡ ok p))
      → not (str_eq (resolve_platform lower declared host) host)
        ≡ is_emulated (some declared) (some host)
  resolve_platform-is_emulated host known cases =
      let host_stays : normalize_platform (some host) ≡ some host = known_host host known in
      elim cases [
        | inl unknown ↦
            rw (resolved_unknown host unknown, str_eq_refl host)
              (sym (unfold is_emulated differ in rw unknown refl))
        | inr (p, e) ↦
            let front = ((server_normalize_platform_iff lower declared p ascii).0 e).0 in
            rw (resolved_known host p e)
              (sym (unfold is_emulated differ in rw (front, host_stays) refl))
      ]
