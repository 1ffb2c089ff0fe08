-- ===== src/Results/Ranking.antt =====
-- The order, the ranks and the rows of a ranking.
use bit_bench.Prelude.{
  ◌≡◌, refl, ℕ, suc, ◌+◌, List, [], ◌∷◌, ◌++◌, Bool, true, false, arith, All, map, map_index, sort,
  sort-perm, sort-IsSorted, IsSorted, Str, ap, sym, ◌∙◌, Option, none, some, if◌then◌else◌,
}
use bit_bench.Prelude.Ordered.{Pairwise}
use mathlib.Core.List.{Perm}
use mathlib.Core.List.Perm
use bit_bench.Results.{
  Ordered, BenchmarkResult, RankedRow, with_rank, row_before, ranked_rows, is_lower_better,
  rank_results, metric_of,
}
use bit_bench.Results.Order.{not_lt_trans, lt_asymm}

-- What a row says of the result it comes from.
abbrev pub named_value : {Num : Type 0} → RankedRow Num → Str × Num
named_value r = (r.compressor, r.value)

module _ {Num : Type 0} where
  -- The ranks of a list of rows.
  abbrev pub ranks : List (RankedRow Num) → List ℕ
  ranks [] = []
  ranks (r ∷ rs) = r.rank ∷ ranks rs

  -- `from, from + 1, …`, one number for each row.
  abbrev pub count_up : ℕ → List (RankedRow Num) → List ℕ
  count_up from [] = []
  count_up from (r ∷ rs) = from ∷ count_up (from + 1) rs

  ranks-with_rank :
      (i : ℕ) (rows : List (RankedRow Num))
      → ranks (map_index with_rank i rows) ≡ count_up (i + 1) (map_index with_rank i rows)
  unfolding with_rank
  ranks-with_rank i [] = refl
  ranks-with_rank i (r ∷ rows) =
      let next : i + 1 + 1 ≡ suc i + 1 = omega arith in
      rw next (ap ((i + 1) ∷◌) (ranks-with_rank (suc i) rows))

  named_value-with_rank :
      (i : ℕ) (rows : List (RankedRow Num))
      → map named_value (map_index with_rank i rows) ≡ map named_value rows
  unfolding with_rank
  named_value-with_rank i [] = refl
  named_value-with_rank i (r ∷ rows) = ap (named_value r ∷◌) (named_value-with_rank (suc i) rows)

abbrev pub concat : {A : Type 0} → List (List A) → List A
concat [] = []
concat (xs ∷ xss) = xs ++ concat xss

module _ {Num : Type 0} ⦃o : Ordered Num⦄ where
  row_before_asymm :
      (lower : Bool) (a b : RankedRow Num)
      → row_before lower a b ≡ true
      → row_before lower b a ≡ false
  unfolding row_before
  row_before_asymm true a b h = lt_asymm a.value b.value h
  row_before_asymm false a b h = lt_asymm b.value a.value h

  row_before_trans :
      (lower : Bool) (a b c : RankedRow Num)
      → row_before lower b a ≡ false
      → row_before lower c b ≡ false
      → row_before lower c a ≡ false
  unfolding row_before
  row_before_trans true a b c p q = not_lt_trans a.value b.value c.value p q
  row_before_trans false a b c p q = not_lt_trans c.value b.value a.value q p

  All-with_rank :
      (lower : Bool) (x : RankedRow Num) (i j : ℕ) (rows : List (RankedRow Num))
      → All (λ y. row_before lower y x ≡ false) rows
      → All (λ y. row_before lower y (with_rank j x) ≡ false) (map_index with_rank i rows)
  unfolding row_before with_rank
  All-with_rank lower x i j [] h = tt
  All-with_rank lower x i j (y ∷ rows) (p, h) = (p, All-with_rank lower x (suc i) j rows h)

  with_rank-IsSorted :
      (lower : Bool) (i : ℕ) (rows : List (RankedRow Num))
      → IsSorted (row_before lower) rows
      → IsSorted (row_before lower) (map_index with_rank i rows)
  with_rank-IsSorted lower i [] h = tt
  with_rank-IsSorted lower i (r ∷ rows) (first, h) =
      (All-with_rank lower r (suc i) i rows first, with_rank-IsSorted lower (suc i) rows h)

  -- The results that have the metric, with its value there.
  abbrev pub entry : Str → BenchmarkResult Num → List (Str × Num)
  entry metric r = elim (metric_of metric r) [ none ↦ [] | some v ↦ (r.compressor, v) ∷ [] ]

  -- The value is strictly better than the other, lower or higher as the metric asks.
  abbrev pub is_better : Str → Num → Num → Bool
  is_better metric a b = if is_lower_better metric then o.lt a b else o.lt b a

  one_entry :
      (v : Option Num) (name : Str) (rows : List (RankedRow Num))
      → map named_value (elim v [
        | none ↦ rows
        | some x ↦ record { compressor = name; value = x; rank = 0 } ∷ rows
      ])
        ≡ (elim v [ none ↦ [] | some x ↦ (name, x) ∷ [] ]) ++ map named_value rows
  one_entry none name rows = refl
  one_entry (some x) name rows = refl

  ranked_rows-entries :
      (results : List (BenchmarkResult Num)) (metric : Str)
      → map named_value (ranked_rows results metric) ≡ concat (map (entry metric) results)
  unfolding ranked_rows
  ranked_rows-entries [] metric = refl
  ranked_rows-entries (r ∷ results) metric =
      one_entry (metric_of metric r) r.compressor (ranked_rows results metric)
      ∙ ap (entry metric r ++◌) (ranked_rows-entries results metric)

  none_before :
      (metric : Str) (x : RankedRow Num) (rows : List (RankedRow Num))
      → All (λ y. row_before (is_lower_better metric) y x ≡ false) rows
      → All (λ y. is_better metric y.value x.value ≡ false) rows
  unfolding row_before
  none_before metric x [] h = tt
  none_before metric x (y ∷ rows) (p, h) = (p, none_before metric x rows h)

  none_better :
      (metric : Str) (rows : List (RankedRow Num))
      → IsSorted (row_before (is_lower_better metric)) rows
      → Pairwise (λ x y. is_better metric y.value x.value ≡ false) rows
  none_better metric [] h = tt
  none_better metric (x ∷ rows) (p, h) = (none_before metric x rows p, none_better metric rows h)

  -- A ranking holds one row for each result that has the metric, with its compressor and its
  -- value, and for no other; no row has a strictly better value than one above it; and the rows
  -- are ranked 1, 2, 3 and so on from the top.
  pub rank_results_lem :
      (results : List (BenchmarkResult Num)) (metric : Str)
      → Perm (map named_value (rank_results results metric)) (concat (map (entry metric) results))
        × Pairwise (λ x y. is_better metric y.value x.value ≡ false) (rank_results results metric)
        × (ranks (rank_results results metric) ≡ count_up 1 (rank_results results metric))
  unfolding rank_results
  rank_results_lem results metric =
      let before = row_before (is_lower_better metric) in
      let rows = ranked_rows results metric in
      (
        rw (named_value-with_rank 0 (sort before rows), sym (ranked_rows-entries results metric))
            (Perm.map named_value (sort-perm before rows)),
        none_better metric _ (
            with_rank-IsSorted (is_lower_better metric) 0 (sort before rows) (
              sort-IsSorted before (row_before_asymm (is_lower_better metric))
                (row_before_trans (is_lower_better metric)) rows)),
        ranks-with_rank 0 (sort before rows),
      )
