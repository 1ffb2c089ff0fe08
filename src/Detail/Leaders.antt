-- ===== src/Detail/Leaders.antt =====
-- The list of Pareto counts on the results page.
use bit_bench.Prelude.{
  insert, ℕ, ◌≡◌, ◌⊎◌, ◌∙◌, refl, sym, ap, subst, inl, inr, List, [], ◌∷◌, ◌++◌, Bool, true, false,
  Str, All-In, In, In-append, In-sort, IsSorted, length, sort, sort-IsSorted, take, drop,
  take-append-drop, min, length-take, arith, zero, suc,
}
use bit_bench.Results.{Ordered, BenchmarkResult, compute_pareto}
use bit_bench.Results.Order.{lt_asymm, not_lt_trans}
use bit_bench.Metrics.{Arithmetic}
use bit_bench.Detail.{ratio_of, count_before, pareto_sorted}

In-drop : {A : Type 0} (n : ℕ) (xs : List A) (y : A) → In y (drop n xs) → In y xs
In-drop zero xs y m = m
In-drop (suc n) [] y m = m
In-drop (suc n) (x ∷ xs) y m = inr (In-drop n xs y m)

module _ {A : Type 0} (lt : A → A → Bool) where
  length-insert : (x : A) (xs : List A) → length (insert lt x xs) ≡ suc (length xs)
  unfolding insert
  length-insert x [] = refl
  length-insert x (y ∷ ys) = ground (arith, length-insert x ys)

  length-sort : (xs : List A) → length (sort lt xs) ≡ length xs
  unfolding sort
  length-sort [] = refl
  length-sort (x ∷ xs) = length-insert x (sort lt xs) ∙ ap suc (length-sort xs)

  -- Of the first `n` of a sorted list, none comes behind one that is not among them.
  rest_not_before :
      (n : ℕ) (xs : List A)
      → IsSorted lt xs
      → (x y : A) → In x (take n xs)
      → In y (drop n xs)
      → lt y x ≡ false
  rest_not_before zero xs s x y m l = elim m [ ]
  rest_not_before (suc n) [] s x y m l = elim m [ ]
  rest_not_before (suc n) (z ∷ xs) (first, s) x y (inl same) l =
      subst (λ w. lt y w ≡ false) (sym same) (All-In _ xs y first (In-drop n xs y l))
  rest_not_before (suc n) (z ∷ xs) (first, s) x y (inr m) l = rest_not_before n xs s x y m l

module _ {Num : Type 0} ⦃o : Ordered Num⦄ (a : Arithmetic Num)
    (results : List (BenchmarkResult Num)) where
  count_before_asymm :
      (x y : Str × ℕ) → count_before a results x y ≡ true → count_before a results y x ≡ false
  unfolding count_before
  count_before_asymm x y h =
      ground (arith, h, lt_asymm (ratio_of a results x.0) (ratio_of a results y.0))

  count_before_trans :
      (x y z : Str × ℕ)
      → count_before a results y x ≡ false
      → count_before a results z y ≡ false
      → count_before a results z x ≡ false
  unfolding count_before
  count_before_trans x y z p q = ground (
    arith,
    p,
    q,
    not_lt_trans (ratio_of a results x.0) (ratio_of a results y.0) (ratio_of a results z.0),
  )

  length-pareto_sorted : length (pareto_sorted a results) ≡ min 5 (length (compute_pareto results))
  unfolding pareto_sorted
  length-pareto_sorted =
      let lt = count_before a results in
      length-take 5 (sort lt (compute_pareto results))
      ∙ ap (min 5) (length-sort lt (compute_pareto results))

  listed_or_behind :
      (x y : Str × ℕ)
      → In x (pareto_sorted a results)
      → In y (compute_pareto results)
      → In y (pareto_sorted a results) ⊎ (count_before a results y x ≡ false)
  unfolding pareto_sorted
  listed_or_behind x y shown there =
      let lt = count_before a results in
      let sorted = sort lt (compute_pareto results) in
      let parts : In y (take 5 sorted ++ drop 5 sorted) =
        subst (λ l. In y l) (sym (take-append-drop 5 sorted))
          ((In-sort lt y (compute_pareto results)).1 there) in
      elim (In-append y (take 5 sorted) (drop 5 sorted) parts) [
        | inl among ↦ inl among
        | inr behind ↦ inr (
            rest_not_before lt 5 sorted
              (sort-IsSorted lt count_before_asymm count_before_trans (compute_pareto results)) x y
              shown behind)
      ]

  -- The page lists at most five compressors with their Pareto counts, and all of them where there are
  -- no more than five; where it leaves a compressor out, no listed one has a higher count, nor the
  -- same count and a higher ratio.
  pub pareto_sorted_lem :
      (x y : Str × ℕ)
      → In x (pareto_sorted a results)
      → In y (compute_pareto results)
      → (length (pareto_sorted a results) ≡ min 5 (length (compute_pareto results)))
        × (In y (pareto_sorted a results) ⊎ (count_before a results y x ≡ false))
  pareto_sorted_lem x y shown there = (length-pareto_sorted, listed_or_behind x y shown there)
