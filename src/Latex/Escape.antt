-- ===== src/Latex/Escape.antt =====
-- Which text the escaping of LaTeX leaves as it is.
use bit_bench.Prelude.{
  ℕ, ◌≡◌, refl, ap, [], ◌∷◌, false, Str, codes, str_eq, starts_with, replace_all, All, ◌==◌, arith,
}
use bit_bench.Latex.{escape_latex, replace_text, replace_from, replace_last}

-- The text does not hold the unit.
abbrev pub Lacks : ℕ → Str → Type 0
Lacks c s = All (λ d. (d == c) ≡ false) s

replace_all-Lacks : (c : ℕ) (by s : Str) → Lacks c s → replace_all c by s ≡ s
unfolding replace_all
replace_all-Lacks c by [] h = refl
replace_all-Lacks c by (d ∷ s) (e, h) = rw e (ap (λ t. d ∷ t) (replace_all-Lacks c by s h))

replace_from-Lacks : (c : ℕ) (p by s : Str) → Lacks c s → replace_from (c ∷ p) by 0 s ≡ s
unfolding replace_from starts_with
replace_from-Lacks c p by [] h = refl
replace_from-Lacks c p by (d ∷ s) (e, h) =
    let other : (c == d) ≡ false = ground (arith, e) in
    rw other (ap (λ t. d ∷ t) (replace_from-Lacks c p by s h))

replace_last-Lacks : (by s : Str) → Lacks b'\\' s → replace_last by s ≡ s
unfolding replace_last str_eq
replace_last-Lacks by [] h = refl
replace_last-Lacks by (c ∷ []) (e, h) = rw e refl
replace_last-Lacks by (c ∷ d ∷ s) (e, h) = ap (λ t. c ∷ t) (replace_last-Lacks by (d ∷ s) h)

-- Text without a backslash, "&", "%", "#", "_" and "~" is left as it is: "$", "{", "}" and "^", which
-- LaTeX reads as commands as well, are not escaped.
pub escape_latex-Lacks :
    (text : Str)
    → Lacks b'\\' text
    → Lacks b'&' text
    → Lacks b'%' text
    → Lacks b'#' text
    → Lacks b'_' text
    → Lacks b'~' text
    → escape_latex text ≡ text
unfolding escape_latex replace_text
escape_latex-Lacks text backslash ampersand percent hash underscore tilde =
    rw
      (
        replace_from-Lacks b'\\' (codes "\\") (codes "\\\\textbackslash ") text backslash,
        replace_all-Lacks b'&' (codes "\\\\&") text ampersand,
        replace_all-Lacks b'%' (codes "\\\\%") text percent,
        replace_last-Lacks (codes "\\\\$") text backslash,
        replace_all-Lacks b'#' (codes "\\\\#") text hash,
        replace_all-Lacks b'_' (codes "\\\\_") text underscore,
        replace_from-Lacks b'\\' (codes "{") (codes "\\\\{") text backslash,
        replace_from-Lacks b'\\' (codes "}") (codes "\\\\}") text backslash,
      )
      (replace_all-Lacks b'~' (codes "\\\\textasciitilde ") text tilde)
