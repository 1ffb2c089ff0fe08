-- ===== src/Platforms/Laws.antt =====
-- Normalization and the emulation warning.
use bit_bench.Prelude.{
  ◌≡◌, refl, ◌↔◌, ◌≢◌, ◌⊎◌, inl, inr, Option, none, some, List, [], Bool, true, false, Str, str_eq,
  str_eq_iff, arith, Bool-cases, if◌then◌else◌, to_lower, trim, split, get_elem?,
}
use bit_bench.Platforms.{
  platform_amd64, platform_arm64, option_eq, arch_platform, platform_of_parts, normalize_platform,
  differ, is_emulated,
}

-- The two platforms that normalization knows.
abbrev pub IsKnown : Option Str → Type 0
IsKnown p = (p ≡ some platform_amd64) ⊎ (p ≡ some platform_arm64)

arch_platform-cases :
    (arch : Option Str) → (arch_platform arch ≡ none) ⊎ IsKnown (arch_platform arch)
unfolding arch_platform
arch_platform-cases arch = ground arith

platform_of_parts-cases :
    (parts : List Str) → (platform_of_parts parts ≡ none) ⊎ IsKnown (platform_of_parts parts)
unfolding platform_of_parts
platform_of_parts-cases parts = unless _ (arch_platform-cases (get_elem? parts 1))
  where
    unless :
        (b : Bool) {x : Option Str}
        → (x ≡ none) ⊎ IsKnown x
        → ((if b then none else x) ≡ none) ⊎ IsKnown (if b then none else x)
    unless true h = inl refl
    unless false h = h

normalize_platform-cases :
    (p : Option Str) → (normalize_platform p ≡ none) ⊎ IsKnown (normalize_platform p)
unfolding normalize_platform
normalize_platform-cases none = inl refl
normalize_platform-cases (some p) = elim (Bool-cases (str_eq p [])) [
  | inl e ↦ rw e (inl refl)
  | inr e ↦ rw e (platform_of_parts-cases (split b'/' (to_lower (trim p))))
]

pub known_fixed : (p : Option Str) → IsKnown p → normalize_platform p ≡ p
unfolding normalize_platform platform_of_parts arch_platform platform_amd64 platform_arm64 option_eq
    str_eq to_lower trim split
known_fixed p (inl e) = rw e
known_fixed p (inr e) = rw e

-- Every platform normalizes to linux/amd64, to linux/arm64 or to nothing, and normalizing the
-- outcome again changes nothing.
pub normalize_platform_idempotent :
    (p : Option Str)
    → ((normalize_platform p ≡ none) ⊎ IsKnown (normalize_platform p))
      × (normalize_platform (normalize_platform p) ≡ normalize_platform p)
normalize_platform_idempotent p = (
  normalize_platform-cases p,
  elim (normalize_platform-cases p) [
    | inl e ↦ rw e (unfold normalize_platform in refl)
    | inr k ↦ known_fixed (normalize_platform p) k
  ],
)

differ_iff : (a b : Option Str) → (differ a b ≡ true) ↔ ((a ≢ none) × (b ≢ none) × (a ≢ b))
unfolding differ
differ_iff none b = ground arith
differ_iff (some s) none = ground arith
differ_iff (some s) (some t) = ground (arith, str_eq_iff s t)

-- A package runs under emulation exactly when its platform and the host's are both known and
-- differ; the two may change places.
pub is_emulated_iff :
    (p host : Option Str)
    → ((is_emulated p host ≡ true) ↔ (
        (normalize_platform p ≢ none)
        × (normalize_platform host ≢ none)
        × (normalize_platform p ≢ normalize_platform host)))
      × (is_emulated p host ≡ is_emulated host p)
unfolding is_emulated
is_emulated_iff p host =
    let to = differ_iff (normalize_platform p) (normalize_platform host) in
    (to, ground (arith, to, differ_iff (normalize_platform host) (normalize_platform p)))
