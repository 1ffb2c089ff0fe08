-- ===== src/Results/Pareto.antt =====
-- What the Pareto counts count.
use bit_bench.Prelude.{
  ◌≡◌, refl, ◌↔◌, ◌⊎◌, inl, inr, ℕ, suc, ◌+◌, ◌<◌, some, List, [], ◌∷◌, true, false, arith,
  Bool-cases, sym, ◌∙◌, Str, In, AllDistinct, All, length, if◌then◌else◌, ◌==◌, ◌≢◌, str_eq,
  str_eq_iff, str_eq_refl, ap, All-In, subst, ◌++◌, append_assoc, length-append,
}
use bit_bench.Objects.{Object, get, put}
use bit_bench.Objects.Laws.{get-put}
use bit_bench.Results.{
  Ordered, BenchmarkResult, Point, dominates, domination_count, pareto_from, valid_points,
  compute_pareto,
}
use bit_bench.Results.Order.{dominates_irrefl, dominates_trans}

module _ {Num : Type 0} ⦃o : Ordered Num⦄ where
  -- How many points of a list dominate `a`.
  pub dominators : Point Num → List (Point Num) → ℕ
  dominators a [] = 0
  dominators a (b ∷ rest) =
      let count = dominators a rest in if dominates b a then suc count else count

  -- Point `i` of the list from index `j` is `a`.
  abbrev Stands : ℕ → Point Num → ℕ → List (Point Num) → Type 0
  Stands i a j [] = Unit {0}
  Stands i a j (b ∷ rest) = (i ≡ j → a ≡ b) × Stands i a (j + 1) rest

  -- Leaving the point itself out changes no count: no point dominates itself.
  domination_count-eq :
      (i : ℕ) (a : Point Num) (j : ℕ) (points : List (Point Num))
      → Stands i a j points
      → domination_count i a j points ≡ dominators a points
  unfolding domination_count dominators
  domination_count-eq i a j [] h = refl
  domination_count-eq i a j (b ∷ rest) (here, h) = elim (Bool-cases (i == j)) [
    | inl e ↦
        let same : a ≡ b = here (ground arith) in
        let none_here : dominates b a ≡ false =
          subst (λ x. dominates x a ≡ false) same (dominates_irrefl a) in
        rw (e, none_here) (domination_count-eq i a (j + 1) rest h)
    | inr e ↦ rw (e, domination_count-eq i a (j + 1) rest h)
  ]

  abbrev pub point_names : List (Point Num) → List Str
  point_names [] = []
  point_names (p ∷ ps) = p.compressor ∷ point_names ps

  Stands-behind :
      (i : ℕ) (a : Point Num) (j : ℕ) (points : List (Point Num)) → i < j → Stands i a j points
  Stands-behind i a j [] h = tt
  Stands-behind i a j (b ∷ rest) h =
      ((λ e. absurd (omega arith)), Stands-behind i a (j + 1) rest (omega arith))

  Stands-at :
      (i : ℕ) (a : Point Num) (j : ℕ) (before after : List (Point Num))
      → i ≡ j + length before
      → Stands i a j (before ++ a ∷ after)
  Stands-at i a j [] after h = ((λ e. refl), Stands-behind i a (j + 1) after (omega arith))
  Stands-at i a j (b ∷ before) after h =
      ((λ e. absurd (omega arith)), Stands-at i a (j + 1) before after (omega arith))

  -- The points of a list stand in `valid` from index `i`.
  abbrev Placed : List (Point Num) → ℕ → List (Point Num) → Type 0
  Placed valid i [] = Unit {0}
  Placed valid i (a ∷ rest) = Stands i a 0 valid × Placed valid (i + 1) rest

  placed :
      (before rest valid : List (Point Num)) (i : ℕ)
      → valid ≡ before ++ rest
      → i ≡ length before
      → Placed valid i rest
  placed before [] valid i e h = tt
  placed before (a ∷ rest) valid i e h = (
    rw e (Stands-at i a 0 before rest (omega arith)),
    placed (before ++ a ∷ []) rest valid (i + 1) (e ∙ sym (append_assoc before (a ∷ []) rest))
        (omega (arith, length-append before (a ∷ []))),
  )

  module _ (valid : List (Point Num)) where
    -- A name that the loop does not meet keeps its count.
    get-pareto_from :
        (i : ℕ) (rest : List (Point Num)) (counts : Object ℕ) (k : Str)
        → ¬ (In k (point_names rest))
        → get k (pareto_from valid i rest counts) ≡ get k counts
    unfolding pareto_from
    get-pareto_from i [] counts k new = refl
    get-pareto_from i (a ∷ rest) counts k new =
        get-pareto_from (i + 1) rest (put a.compressor (domination_count i a 0 valid) counts) k
          (λ m. new (inr m))
        ∙ other (Bool-cases (str_eq k a.compressor))
      where
        other :
            (str_eq k a.compressor ≡ true) ⊎ (str_eq k a.compressor ≡ false)
            → get k (put a.compressor (domination_count i a 0 valid) counts) ≡ get k counts
        other (inl e) = absurd (new (inl ((str_eq_iff k a.compressor).0 e)))
        other (inr e) = rw (get-put, e)

    counted_from :
        (i : ℕ) (rest : List (Point Num)) (counts : Object ℕ)
        → AllDistinct (point_names rest)
        → Placed valid i rest
        → All
            (λ p. get p.compressor (pareto_from valid i rest counts) ≡ some (dominators p valid))
            rest
    unfolding pareto_from
    counted_from i [] counts d h = tt
    counted_from i (a ∷ rest) counts (new, d) (here, h) =
        let counts' = put a.compressor (domination_count i a 0 valid) counts in
        (
          get-pareto_from (i + 1) rest counts' a.compressor new
              ∙ rw (get-put, str_eq_refl a.compressor)
                  (ap some (domination_count-eq i a 0 valid here)),
          counted_from (i + 1) rest counts' d h,
        )

  -- No point of the list dominates `a`.
  abbrev pub IsOptimal : Point Num → List (Point Num) → Type 0
  IsOptimal a points = All (λ b. dominates b a ≡ false) points

  dominators-eq-zero_iff :
      (a : Point Num) (points : List (Point Num)) → (dominators a points ≡ 0) ↔ IsOptimal a points
  unfolding dominators
  dominators-eq-zero_iff a [] = ((λ h. tt), (λ h. refl))
  dominators-eq-zero_iff a (b ∷ rest) = ground (arith, dominators-eq-zero_iff a rest)

  -- Among finitely many points one is dominated by none.
  IsOptimal-exists :
      (p : Point Num) (ps : List (Point Num))
      → (m : Point Num) × In m (p ∷ ps) × IsOptimal m (p ∷ ps)
  IsOptimal-exists p [] = (p, inl refl, (dominates_irrefl p, tt))
  IsOptimal-exists p (q ∷ ps) =
      let (m, at, best) = IsOptimal-exists q ps in
      elim (Bool-cases (dominates p m)) [
        | inl worse ↦ (p, inl refl, (dominates_irrefl p, below (q ∷ ps) m worse best))
        | inr fine ↦ (m, inr at, (fine, best))
      ]
    where
      below :
          (xs : List (Point Num)) (m : Point Num)
          → dominates p m ≡ true
          → IsOptimal m xs
          → IsOptimal p xs
      below [] m w b = tt
      below (x ∷ xs) m w (here, b) = (
        elim (Bool-cases (dominates x p)) [
          | inl e ↦ cc (here, dominates_trans x p m e w)
          | inr e ↦ e
        ],
        below xs m w b,
      )

  -- Where the compressors of the results with both numbers differ, each has as its count the
  -- number of those results that dominate it, and the count is zero exactly for the
  -- Pareto-optimal ones.
  pub compute_pareto_lem :
      (results : List (BenchmarkResult Num))
      → AllDistinct (point_names (valid_points results))
      → All
          (λ p.
            (get p.compressor (compute_pareto results) ≡ some (dominators p (valid_points results)))
            × ((dominators p (valid_points results) ≡ 0) ↔ IsOptimal p (valid_points results)))
          (valid_points results)
  unfolding compute_pareto
  compute_pareto_lem results distinct =
      let valid = valid_points results in
      with_optimal valid
        (counted_from valid 0 valid [] distinct (placed [] valid valid 0 refl refl))
    where
      with_optimal :
          (ps : List (Point Num))
          → All
              (λ p.
                get p.compressor (pareto_from (valid_points results) 0 (valid_points results) [])
                ≡ some (dominators p (valid_points results)))
              ps
          → All
              (λ p.
                (get p.compressor (pareto_from (valid_points results) 0 (valid_points results) [])
                  ≡ some (dominators p (valid_points results)))
                × ((dominators p (valid_points results) ≡ 0) ↔ IsOptimal p (valid_points results)))
              ps
      with_optimal [] h = tt
      with_optimal (p ∷ ps) (e, h) =
          ((e, dominators-eq-zero_iff p (valid_points results)), with_optimal ps h)

  -- If some result has both numbers and the compressors of such results differ, some compressor has
  -- the count zero: the page shows a Pareto-optimal one.
  pub compute_pareto-optimal_exists :
      (results : List (BenchmarkResult Num))
      → AllDistinct (point_names (valid_points results))
      → valid_points results ≢ []
      → (p : Point Num) × In p (valid_points results)
        × (get p.compressor (compute_pareto results) ≡ some 0)
  compute_pareto-optimal_exists results distinct some_valid =
      from (valid_points results) some_valid (compute_pareto_lem results distinct)
    where
      from :
          (valid : List (Point Num))
          → valid ≢ []
          → All
              (λ p.
                (get p.compressor (compute_pareto results) ≡ some (dominators p valid))
                × ((dominators p valid ≡ 0) ↔ IsOptimal p valid))
              valid
          → (p : Point Num) × In p valid × (get p.compressor (compute_pareto results) ≡ some 0)
      from [] ne h = absurd (ne refl)
      from (q ∷ ps) ne h =
          let (m, at, best) = IsOptimal-exists q ps in
          let (e, zero_iff) = All-In _ (q ∷ ps) m h at in (m, at, e ∙ ap some (zero_iff.1 best))
