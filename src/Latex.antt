-- ===== src/Latex.antt =====
-- The LaTeX tables that the results pages offer for copying (lib/latex.ts). Formatting a number,
-- `toString` or `toFixed(4)`, is a parameter. Copying to the clipboard is left out.
pub mod Ranks
pub mod Escape
use bit_bench.Prelude.{
  ℕ, zero, suc, ◌-◌, Option, none, some, List, [], ◌∷◌, ◌++◌, Bool, true, false, not, ◌&&◌, ◌||◌,
  Str, codes, if◌then◌else◌, map, sort, join, starts_with, replace_all, length, str_eq, replicate,
}
use mathlib.Core.Option
use bit_bench.Results.{Ordered}

pub record LatexTableRow (Num : Type 0) : Type 0 where
  pub label : Str
  pub values : List (Option Num)

-- How a cell is set off.
pub data Emphasis : Type 0 where
  bold underline italic plain : Emphasis

-- `rank === 0`, `rank === 1`, `rank === 2`; a rank of -1 is `none`.
unfoldable pub emphasis : Option ℕ → Emphasis
emphasis (some zero) = bold
emphasis (some (suc zero)) = underline
emphasis (some (suc (suc zero))) = italic
emphasis _ = plain

-- `values.filter((v): v is number => v != null)`
unfoldable pub present_values : {Num : Type 0} → List (Option Num) → List Num
present_values [] = []
present_values (none ∷ vs) = present_values vs
present_values (some v ∷ vs) = v ∷ present_values vs

module _ {Num : Type 0} ⦃o : Ordered Num⦄ where
  -- `===` on numbers that are not `NaN`
  unfoldable pub same : Num → Num → Bool
  same a b = not (o.lt a b) && not (o.lt b a)

  -- The comparator: `lowerIsBetter ? a - b : b - a`.
  unfoldable pub better : Bool → Num → Num → Bool
  better lower a b = if lower then o.lt a b else o.lt b a

  -- `sorted.indexOf(value)`, with `none` for -1
  unfoldable pub position : Num → List Num → Option ℕ
  unfolding same
  position v [] = none
  position v (x ∷ xs) =
      let rest = Option.map suc (position v xs) in if same x v then some 0 else rest

  -- The place of a value among all values of its row, best first.
  unfoldable pub rank_of : Num → List (Option Num) → Bool → Option ℕ
  unfolding position present_values
  rank_of value all_values lower = position value (sort (better lower) (present_values all_values))

-- `text.replace(/…/g, by)` for a pattern of plain characters; `skip` counts the units of a match
-- that are still to be passed.
unfoldable pub replace_from : Str → Str → ℕ → Str → Str
replace_from pattern by skip [] = []
replace_from pattern by (suc skip) (c ∷ s) = replace_from pattern by skip s
replace_from pattern by zero (c ∷ s) =
    let matched = by ++ replace_from pattern by (length pattern - 1) s in
    let kept = c ∷ replace_from pattern by zero s in
    if starts_with pattern (c ∷ s) then matched else kept

unfoldable pub replace_text : Str → Str → Str → Str
unfolding replace_from
replace_text pattern by s = replace_from pattern by 0 s

-- `text.replace(/\\$/g, by)`: a backslash at the end of the text.
unfoldable pub replace_last : Str → Str → Str
replace_last by [] = []
replace_last by (c ∷ []) = if str_eq (c ∷ []) (codes "\\") then by else c ∷ []
replace_last by (c ∷ d ∷ s) = c ∷ replace_last by (d ∷ s)

-- `escapeLatex`, as its patterns read: the seventh and the eighth want a backslash before a brace,
-- the fourth one at the end of the text, and the last, `/\\^/`, which wants the text to begin behind
-- a backslash, never matches.
unfoldable pub escape_latex : Str → Str
unfolding replace_text replace_last
escape_latex text =
    let s1 = replace_text (codes "\\\\") (codes "\\\\textbackslash ") text in
    let s2 = replace_all b'&' (codes "\\\\&") s1 in
    let s3 = replace_all b'%' (codes "\\\\%") s2 in
    let s4 = replace_last (codes "\\\\$") s3 in
    let s5 = replace_all b'#' (codes "\\\\#") s4 in
    let s6 = replace_all b'_' (codes "\\\\_") s5 in
    let s7 = replace_text (codes "\\{") (codes "\\\\{") s6 in
    let s8 = replace_text (codes "\\}") (codes "\\\\}") s7 in
    replace_all b'~' (codes "\\\\textasciitilde ") s8

-- The commands that set a cell off.
unfoldable pub emphasized : Emphasis → Str → Str
emphasized bold s = codes "\\\\textbf{" ++ s ++ codes "}"
emphasized underline s = codes "\\\\underline{" ++ s ++ codes "}"
emphasized italic s = codes "\\\\emph{" ++ s ++ codes "}"
emphasized plain s = s

module _ {Num : Type 0} ⦃o : Ordered Num⦄ (format_number : Num → Str) where
  unfoldable pub format_latex_cell : Num → List (Option Num) → Bool → Str
  unfolding rank_of emphasis emphasized
  format_latex_cell value all_values lower =
      emphasized (emphasis (rank_of value all_values lower)) (format_number value)

  -- `v == null ? '-' : formatLatexCell(v, row.values, ci, lowerIsBetter)`
  unfoldable pub cell_text : List (Option Num) → Bool → Option Num → Str
  unfolding format_latex_cell
  cell_text all_values lower none = codes "-"
  cell_text all_values lower (some v) = format_latex_cell v all_values lower

  unfoldable pub row_line : Bool → LatexTableRow Num → Str
  unfolding cell_text escape_latex
  row_line lower row =
      codes "    "
      ++ escape_latex row.label
      ++ codes " & "
      ++ join (codes " & ") (map (cell_text row.values lower) row.values)
      ++ codes " \\\\\\\\"

  unfoldable pub caption_lines : Str → Bool → List Str
  unfolding escape_latex
  caption_lines caption lower =
      if str_eq caption []
      then []
      else (codes "  \\\\small{"
          ++ escape_latex (if lower then codes "Lower is better" else codes "Higher is better")
          ++ codes ". Bold = best, underline = 2nd, italic = 3rd.}")
        ∷ []

  -- The lines of `buildLatexTable`, which are joined by a backslash and the letter n.
  unfoldable pub table_lines : List (LatexTableRow Num) → List Str → Str → Bool → List Str
  unfolding row_line caption_lines
  table_lines rows columns caption lower =
      (codes "% BitBench LaTeX table — auto-generated"
        ∷ codes "\\\\begin{table}[htbp]"
        ∷ codes "  \\\\centering"
        ∷ (codes "  \\\\caption{" ++ escape_latex caption ++ codes "}")
        ∷ (codes "  \\\\begin{tabular}{l" ++ replicate (length columns) b'r' ++ codes "}")
        ∷ codes "    \\\\toprule"
        ∷ (codes "    Dataset & "
            ++ join (codes " & ") (map escape_latex columns)
            ++ codes " \\\\\\\\")
        ∷ codes "    \\\\midrule"
        ∷ [])
      ++ map (row_line lower) rows
      ++ (codes "    \\\\bottomrule" ∷ codes "  \\\\end{tabular}" ∷ [])
      ++ caption_lines caption lower
      ++ (codes "\\\\end{table}" ∷ [])

  unfoldable pub build_latex_table : List (LatexTableRow Num) → List Str → Str → Bool → Str
  unfolding table_lines
  build_latex_table rows columns caption lower =
      join (codes "\\n") (table_lines rows columns caption lower)
