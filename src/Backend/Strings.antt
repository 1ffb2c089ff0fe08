-- ===== src/Backend/Strings.antt =====
-- What the server uses of Go's package strings: `TrimSpace` and `ToLower`, on the bytes of a string.
-- On ASCII they are written out, and so is the white space of Unicode, as it stands in UTF-8; the
-- small letters of other texts, `Map(unicode.ToLower, s)`, are a parameter.
use bit_bench.Prelude.{
  ℕ, zero, suc, Option, none, some, List, [], ◌∷◌, Bool, true, false, ◌&&◌, Str, ltb, length, ◌==◌,
  if◌then◌else◌, trim, trim_start, trim_end, is_space, to_lower, ◌≡◌, refl, inl, inr, Bool-cases,
  map,
}

unfoldable pub is_ascii : Str → Bool
is_ascii [] = true
is_ascii (c ∷ s) = ltb c 128 && is_ascii s

-- The white space of `unicode.IsSpace`, each in UTF-8: ASCII, then U+0085, U+00A0, U+1680,
-- U+2000 to U+200A, U+2028, U+2029, U+202F, U+205F and U+3000.
abbrev white_space : List Str
white_space =
    (9 ∷ [])
    ∷ (10 ∷ [])
    ∷ (11 ∷ [])
    ∷ (12 ∷ [])
    ∷ (13 ∷ [])
    ∷ (32 ∷ [])
    ∷ (0xc2 ∷ 0x85 ∷ [])
    ∷ (0xc2 ∷ 0xa0 ∷ [])
    ∷ (0xe1 ∷ 0x9a ∷ 0x80 ∷ [])
    ∷ (0xe2 ∷ 0x80 ∷ 0x80 ∷ [])
    ∷ (0xe2 ∷ 0x80 ∷ 0x81 ∷ [])
    ∷ (0xe2 ∷ 0x80 ∷ 0x82 ∷ [])
    ∷ (0xe2 ∷ 0x80 ∷ 0x83 ∷ [])
    ∷ (0xe2 ∷ 0x80 ∷ 0x84 ∷ [])
    ∷ (0xe2 ∷ 0x80 ∷ 0x85 ∷ [])
    ∷ (0xe2 ∷ 0x80 ∷ 0x86 ∷ [])
    ∷ (0xe2 ∷ 0x80 ∷ 0x87 ∷ [])
    ∷ (0xe2 ∷ 0x80 ∷ 0x88 ∷ [])
    ∷ (0xe2 ∷ 0x80 ∷ 0x89 ∷ [])
    ∷ (0xe2 ∷ 0x80 ∷ 0x8a ∷ [])
    ∷ (0xe2 ∷ 0x80 ∷ 0xa8 ∷ [])
    ∷ (0xe2 ∷ 0x80 ∷ 0xa9 ∷ [])
    ∷ (0xe2 ∷ 0x80 ∷ 0xaf ∷ [])
    ∷ (0xe2 ∷ 0x81 ∷ 0x9f ∷ [])
    ∷ (0xe3 ∷ 0x80 ∷ 0x80 ∷ [])
    ∷ []

unfoldable reversed : Str → Str → Str
reversed done [] = done
reversed done (c ∷ s) = reversed (c ∷ done) s

-- What is behind a prefix.
unfoldable behind : Str → Str → Option Str
behind [] s = some s
behind (c ∷ p) [] = none
behind (c ∷ p) (d ∷ s) = if c == d then behind p s else none

unfoldable behind_any : List Str → Str → Option Str
unfolding behind
behind_any [] s = none
behind_any (p ∷ ps) s = elim (behind p s) [ none ↦ behind_any ps s | some rest ↦ some rest ]

-- As often as there are bytes is enough.
unfoldable strip : ℕ → List Str → Str → Str
unfolding behind_any
strip zero ps s = s
strip (suc fuel) ps s = elim (behind_any ps s) [ none ↦ s | some rest ↦ strip fuel ps rest ]

-- The space in front, and with the bytes in the opposite order the space behind.
unfoldable trim_unicode : Str → Str
unfolding strip reversed
trim_unicode s =
    let front = strip (length s) white_space s in
    reversed [] (strip (length s) (map (reversed []) white_space) (reversed [] front))

-- `strings.TrimSpace`
unfoldable pub trim_space : Str → Str
unfolding is_ascii trim trim_unicode
trim_space s = if is_ascii s then trim s else trim_unicode s

-- `strings.ToLower`
unfoldable pub go_lower : (Str → Str) → Str → Str
unfolding is_ascii to_lower
go_lower lower s = if is_ascii s then to_lower s else lower s

and_both : (a b : Bool) → (a && b) ≡ true → (a ≡ true) × (b ≡ true)
and_both true b h = (refl, h)
and_both false b h = cc

trim_start-is_ascii : (s : Str) → is_ascii s ≡ true → is_ascii (trim_start s) ≡ true
unfolding is_ascii trim_start
trim_start-is_ascii [] h = refl
trim_start-is_ascii (c ∷ s) h = elim (Bool-cases (is_space c)) [
  | inl e ↦ rw e (trim_start-is_ascii s (and_both (ltb c 128) (is_ascii s) h).1)
  | inr e ↦ rw e h
]

kept_end :
    (c : ℕ) (t : Str)
    → ltb c 128 ≡ true
    → is_ascii t ≡ true
    → is_ascii (elim t [ [] ↦ if is_space c then [] else c ∷ [] | d ∷ rest ↦ c ∷ d ∷ rest ]) ≡ true
unfolding is_ascii
kept_end c [] small h = elim (Bool-cases (is_space c)) [
  | inl e ↦ rw e refl
  | inr e ↦ rw (e, small) refl
]
kept_end c (d ∷ rest) small h = rw (small, h) refl

trim_end-is_ascii : (s : Str) → is_ascii s ≡ true → is_ascii (trim_end s) ≡ true
unfolding is_ascii trim_end
trim_end-is_ascii [] h = refl
trim_end-is_ascii (c ∷ s) h =
    let (small, rest) = and_both (ltb c 128) (is_ascii s) h in
    kept_end c (trim_end s) small (trim_end-is_ascii s rest)

-- On ASCII both sides trim the same, and what is left is ASCII.
pub trim_space-ascii : (s : Str) → is_ascii s ≡ true → trim_space s ≡ trim s
unfolding trim_space
trim_space-ascii s h = rw h refl

pub go_lower-trim :
    (lower : Str → Str) (s : Str)
    → is_ascii s ≡ true
    → go_lower lower (trim_space s) ≡ to_lower (trim s)
unfolding go_lower trim_space trim
go_lower-trim lower s h = rw (h, trim_end-is_ascii (trim_start s) (trim_start-is_ascii s h)) refl
