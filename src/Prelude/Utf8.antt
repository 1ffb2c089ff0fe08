-- ===== src/Prelude/Utf8.antt =====
-- The UTF-8 form of a text without surrogates, as Go holds the strings that it reads from JSON.
use Prim.Native.Nat.{ℕ, ◌+◌, ◌/◌, ◌%◌, ◌≤◌, ◌<◌}
use mathlib.Core.Path.{◌≡◌, refl, sym}
use mathlib.Core.List.{[], ◌∷◌, ◌++◌, append_assoc}
use native.Mathlib.Omega.{arith}
use bit_bench.Prelude.Tests.{if◌then◌else◌, ltb}
use bit_bench.Prelude.Lists.{All, length, length-append}
use bit_bench.Prelude.Text.{Str}

unfoldable pub utf8_unit : ℕ → Str
utf8_unit c =
    if ltb c 128
    then c ∷ []
    else (if ltb c 2048
        then (192 + c / 64) ∷ (128 + c % 64) ∷ []
        else (224 + c / 4096) ∷ (128 + (c / 64) % 64) ∷ (128 + c % 64) ∷ [])

unfoldable pub utf8 : Str → Str
utf8 [] = []
utf8 (c ∷ s) = utf8_unit c ++ utf8 s

abbrev pub IsAscii : Str → Type 0
IsAscii s = All (λ c. c < 128) s

pub utf8-IsAscii : (s : Str) → IsAscii s → utf8 s ≡ s
unfolding utf8 utf8_unit
utf8-IsAscii [] h = refl
utf8-IsAscii (c ∷ s) (p, h) = let ih = utf8-IsAscii s h in ground arith

pub utf8-append : (s t : Str) → utf8 (s ++ t) ≡ utf8 s ++ utf8 t
unfolding utf8
utf8-append [] t = refl
utf8-append (c ∷ s) t = rw (utf8-append s t) (sym (append_assoc (utf8_unit c) (utf8 s) (utf8 t)))

length-utf8_unit : (c : ℕ) → 1 ≤ length (utf8_unit c)
unfolding utf8_unit
length-utf8_unit c = ground arith

-- The UTF-8 form is at least as long.
pub length-utf8 : (s : Str) → length s ≤ length (utf8 s)
unfolding utf8
length-utf8 [] = omega arith
length-utf8 (c ∷ s) =
    omega (arith, length-append (utf8_unit c) (utf8 s), length-utf8_unit c, length-utf8 s)
