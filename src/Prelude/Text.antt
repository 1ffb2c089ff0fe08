-- ===== src/Prelude/Text.antt =====
-- JavaScript strings as lists of UTF-16 code units, with the string operations of the sources.
use Prim.Native.Nat.{ℕ, suc, ◌+◌}
use Prim.Native.Char.{code}
use Prim.Native.String.{String}
use mathlib.Core.Path.{◌≡◌, refl, ap, subst}
use mathlib.Core.Logic.{◌↔◌, inl, inr}
use mathlib.Core.Bool.{Bool, true, false, ◌&&◌, ◌||◌}
use mathlib.Core.List.{List, [], ◌∷◌, ◌++◌}
use mathlib.Core.Option
use mathlib.Core.Option.{Option, none, some}
use native.Mathlib.Omega.{arith}
use bit_bench.Prelude.Tests.{if◌then◌else◌, ◌==◌, leb, ltb, Bool-cases}
use bit_bench.Prelude.Lists.{length, take, drop, In}

abbrev pub Str : Type 0
Str = List ℕ

-- A literal of the source. Its characters lie below U+10000, so each is one code unit.
abbrev pub codes : String → Str
codes String.[] = []
codes (String.◌∷◌ c s) = code c ∷ codes s

-- `===` on strings
unfoldable pub str_eq : Str → Str → Bool
str_eq [] [] = true
str_eq (a ∷ s) (b ∷ t) = (a == b) && str_eq s t
str_eq _ _ = false

pub str_eq_iff : (s t : Str) → (str_eq s t ≡ true) ↔ (s ≡ t)
unfolding str_eq
str_eq_iff [] [] = ground arith
str_eq_iff [] (b ∷ t) = ground arith
str_eq_iff (a ∷ s) [] = ground arith
str_eq_iff (a ∷ s) (b ∷ t) = ground (arith, str_eq_iff s t)

pub str_eq_refl : (s : Str) → str_eq s s ≡ true
str_eq_refl s = (str_eq_iff s s).1 refl

-- `<` on strings: by code units, as `Array.prototype.sort` compares without a comparator.
unfoldable pub str_lt : Str → Str → Bool
str_lt _ [] = false
str_lt [] (b ∷ t) = true
str_lt (a ∷ s) (b ∷ t) = if a == b then str_lt s t else ltb a b

-- `Set.prototype.has` on a set of strings
unfoldable pub has : Str → List Str → Bool
has k [] = false
has k (x ∷ xs) = str_eq k x || has k xs

pub has_iff : (k : Str) (xs : List Str) → (has k xs ≡ true) ↔ In k xs
unfolding has
has_iff k [] = ground arith
has_iff k (x ∷ xs) = ground (arith, str_eq_iff k x, has_iff k xs)

unfoldable pub starts_with : Str → Str → Bool
starts_with [] s = true
starts_with (p ∷ ps) [] = false
starts_with (p ∷ ps) (c ∷ s) = (p == c) && starts_with ps s

-- `s.indexOf(p)`, with `none` for -1
unfoldable pub index_of : Str → Str → Option ℕ
unfolding starts_with
index_of p [] = if starts_with p [] then some 0 else none
index_of p (c ∷ s) =
    let rest = Option.map suc (index_of p s) in if starts_with p (c ∷ s) then some 0 else rest

-- `parts.join(sep)`
unfoldable pub join : Str → List Str → Str
join sep [] = []
join sep (s ∷ []) = s
join sep (s ∷ t ∷ r) = s ++ sep ++ join sep (t ∷ r)

-- `s.split(c)` at one code unit
unfoldable pub split : ℕ → Str → List Str
split c [] = [] ∷ []
split c (d ∷ s) = elim (split c s) [
  | [] ↦ []
  | p ∷ ps ↦ if d == c then [] ∷ p ∷ ps else (d ∷ p) ∷ ps
]

-- `toLowerCase` on ASCII letters; other code units are kept.
unfoldable pub to_lower : Str → Str
to_lower [] = []
to_lower (c ∷ s) = (if leb b'A' c && leb c b'Z' then c + 32 else c) ∷ to_lower s

-- The white space beyond Latin-1 that `trim` removes.
unfoldable pub is_wide_space : ℕ → Bool
is_wide_space c =
    (c == 5760)
    || (leb 8192 c && leb c 8202)
    || (c == 8232)
    || (c == 8233)
    || (c == 8239)
    || (c == 8287)
    || (c == 12288)
    || (c == 65279)

-- The white space and line ends that `trim` removes.
unfoldable pub is_space : ℕ → Bool
unfolding is_wide_space
is_space c = (leb 9 c && leb c 13) || (c == 32) || (c == 160) || is_wide_space c

unfoldable pub trim_start : Str → Str
unfolding is_space
trim_start [] = []
trim_start (c ∷ s) = let rest = trim_start s in if is_space c then rest else c ∷ s

unfoldable pub trim_end : Str → Str
unfolding is_space
trim_end [] = []
trim_end (c ∷ s) = elim (trim_end s) [ [] ↦ if is_space c then [] else c ∷ [] | d ∷ t ↦ c ∷ d ∷ t ]

unfoldable pub trim : Str → Str
unfolding trim_start trim_end
trim s = trim_end (trim_start s)

-- `s.replace(/c/g, by)` for one code unit
unfoldable pub replace_all : ℕ → Str → Str → Str
replace_all c by [] = []
replace_all c by (d ∷ s) = if d == c then by ++ replace_all c by s else d ∷ replace_all c by s

pub starts_with-drop : (p s : Str) → starts_with p s ≡ true → p ++ drop (length p) s ≡ s
unfolding starts_with
starts_with-drop [] s h = refl
starts_with-drop (a ∷ p) [] h = cc
starts_with-drop (a ∷ p) (c ∷ s) h = ground (arith, starts_with-drop p s)

abbrev SplitAt : Str → Str → Option ℕ → Type 0
SplitAt p s none = Unit {0}
SplitAt p s (some i) = take i s ++ p ++ drop (i + length p) s ≡ s

SplitAt-start : (p s : Str) → starts_with p s ≡ true → SplitAt p s (some 0)
SplitAt-start p s e = let z : 0 + length p ≡ length p = omega arith in rw z (starts_with-drop p s e)

SplitAt-later :
    (p s : Str) (c : ℕ) (o : Option ℕ) → SplitAt p s o → SplitAt p (c ∷ s) (Option.map suc o)
SplitAt-later p s c none h = tt
SplitAt-later p s c (some i) h =
    let z : suc i + length p ≡ suc (i + length p) = omega arith in rw z (ap (c ∷◌) h)

index_of-SplitAt : (p s : Str) → SplitAt p s (index_of p s)
unfolding index_of
index_of-SplitAt p [] = elim (Bool-cases (starts_with p [])) [
  | inl e ↦ rw e (SplitAt-start p [] e)
  | inr e ↦ rw e tt
]
index_of-SplitAt p (c ∷ s) = elim (Bool-cases (starts_with p (c ∷ s))) [
  | inl e ↦ rw e (SplitAt-start p (c ∷ s) e)
  | inr e ↦ rw e (SplitAt-later p s c (index_of p s) (index_of-SplitAt p s))
]

-- Where a pattern is found, the text is what stands before it, the pattern and the rest.
pub index_of-drop :
    (p s : Str) (i : ℕ) → index_of p s ≡ some i → take i s ++ p ++ drop (i + length p) s ≡ s
index_of-drop p s i h = subst (SplitAt p s) h (index_of-SplitAt p s)
