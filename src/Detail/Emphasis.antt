-- ===== src/Detail/Emphasis.antt =====
-- How the LaTeX table of a ranking sets its values off.
use bit_bench.Prelude.{◌≡◌, refl, ap, ◌∙◌, inl, map, Option, some, List, [], ◌∷◌, Bool, false, Str}
use bit_bench.Results.{Ordered, BenchmarkResult, RankedRow}
use bit_bench.Latex.{
  bold, cell_text, format_latex_cell, rank_of, emphasis, emphasized, present_values,
}
use bit_bench.Latex.Ranks.{rank_of-count, better_irrefl}
use bit_bench.Detail.{latex_row}

module _ {Num : Type 0} ⦃o : Ordered Num⦄ (format_number : Num → Str) where
  alone-rank_of : (v : Num) (lower : Bool) → rank_of v (some v ∷ []) lower ≡ some 0
  unfolding present_values
  alone-rank_of v lower =
      rank_of-count lower v (some v ∷ []) (inl refl) ∙ rw (better_irrefl lower lower v) refl

  alone-format_latex_cell :
      (v : Num) (lower : Bool)
      → format_latex_cell format_number v (some v ∷ []) lower ≡ emphasized bold (format_number v)
  unfolding format_latex_cell emphasis
  alone-format_latex_cell v lower = rw (alone-rank_of v lower) refl

  -- In the LaTeX table of a ranking without a reference metric, the value of every row is bold, which
  -- the table's caption calls the best, whatever the row's rank: a cell is compared with its own row.
  pub latex_row-bold :
      (results : List (BenchmarkResult Num)) (reference : Option Str) (r : RankedRow Num)
      (lower : Bool)
      → let row = latex_row results reference false r in
        map (cell_text format_number row.values lower) row.values
        ≡ emphasized bold (format_number r.value) ∷ []
  unfolding latex_row cell_text
  latex_row-bold results reference r lower =
      ap (λ s. s ∷ []) (alone-format_latex_cell r.value lower)
