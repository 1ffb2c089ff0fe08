-- ===== src/Latex/Ranks.antt =====
-- The rank of a value is the number of values of its row that are strictly better.
use bit_bench.Prelude.{
  ℕ, suc, ◌+◌, ◌≡◌, refl, inl, inr, Option, none, some, List, [], ◌∷◌, Bool, true, false,
  if◌then◌else◌, arith, Bool-cases, In, All, insert, sort, IsSorted, sort-IsSorted, In-sort, ap,
  ◌∙◌, sym, subst,
}
use bit_bench.Results.{Ordered}
use bit_bench.Results.Order.{lt_asymm, not_lt_trans}
use bit_bench.Latex.{same, better, position, rank_of, present_values}

-- How many elements pass the test.
abbrev pub count : {A : Type 0} → (A → Bool) → List A → ℕ
count test [] = 0
count test (x ∷ xs) = (if test x then 1 else 0) + count test xs

module _ {A : Type 0} (lt : A → A → Bool) (test : A → Bool) where
  count-insert : (x : A) (xs : List A) → count test (insert lt x xs) ≡ count test (x ∷ xs)
  unfolding insert
  count-insert x [] = refl
  count-insert x (y ∷ ys) = elim (Bool-cases (lt y x)) [
    | inl e ↦ rw e (omega (arith, count-insert x ys))
    | inr e ↦ rw e refl
  ]

  -- Sorting does not change how many elements pass.
  count-sort : (xs : List A) → count test (sort lt xs) ≡ count test xs
  unfolding sort
  count-sort [] = refl
  count-sort (x ∷ xs) = omega (arith, count-insert x (sort lt xs), count-sort xs)

module _ {Num : Type 0} ⦃o : Ordered Num⦄ (lower : Bool) where
  better_asymm : (b : Bool) (x y : Num) → better b x y ≡ true → better b y x ≡ false
  unfolding better
  better_asymm true x y h = lt_asymm x y h
  better_asymm false x y h = lt_asymm y x h

  better_trans :
      (b : Bool) (x y z : Num) → better b y x ≡ false → better b z y ≡ false → better b z x ≡ false
  unfolding better
  better_trans true x y z p q = not_lt_trans x y z p q
  better_trans false x y z p q = not_lt_trans z y x q p

  pub better_irrefl : (b : Bool) (x : Num) → better b x x ≡ false
  better_irrefl b x = elim (Bool-cases (better b x x)) [ inl e ↦ better_asymm b x x e | inr e ↦ e ]

  better_or_same :
      (b : Bool) (x v : Num) → same x v ≡ false → better b v x ≡ false → better b x v ≡ true
  unfolding same better
  better_or_same true x v p q = ground (arith, p, q)
  better_or_same false x v p q = ground (arith, p, q)

  same_eq : (x v : Num) → same x v ≡ true → x ≡ v
  unfolding same
  same_eq x v h = o.lt_connected x v (ground (arith, h)) (ground (arith, h))

  same_refl : (v : Num) → same v v ≡ true
  unfolding same
  same_refl v = ground (arith, o.lt_irrefl v)

  none_better :
      (v : Num) (xs : List Num)
      → All (λ y. better lower y v ≡ false) xs
      → count (λ y. better lower y v) xs ≡ 0
  none_better v [] h = refl
  none_better v (x ∷ xs) (p, h) = rw p (omega (arith, none_better v xs h))

  All-at : (v : Num) (xs : List Num) (P : Num → Type 0) → All P xs → In v xs → P v
  All-at v (x ∷ xs) P (p, h) (inl e) = subst P (sym e) p
  All-at v (x ∷ xs) P (p, h) (inr m) = All-at v xs P h m
  All-at v [] P h m = elim m [ ]

  position-count :
      (v : Num) (xs : List Num)
      → IsSorted (better lower) xs
      → In v xs
      → position v xs ≡ some (count (λ y. better lower y v) xs)
  unfolding position
  position-count v [] s m = elim m [ ]
  position-count v (x ∷ xs) (first, s) m = elim (Bool-cases (same x v)) [
    | inl e ↦
        let at : x ≡ v = same_eq x v e in
        let itself : better lower x v ≡ false =
          subst (λ z. better lower x z ≡ false) at (better_irrefl lower x) in
        let rest : All (λ y. better lower y v ≡ false) xs =
          subst (λ z. All (λ y. better lower y z ≡ false) xs) at first in
        let zero_plus : 0 + count (λ y. better lower y v) xs ≡ 0 =
          omega (arith, none_better v xs rest) in
        rw (e, itself) (ap some (sym zero_plus))
    | inr e ↦ elim m [
      | inl same_value ↦ cc (e, subst (λ z. same z v ≡ true) same_value (same_refl v))
      | inr later ↦
          let worse : better lower v x ≡ false =
            All-at v xs (λ y. better lower y x ≡ false) first later in
          let best : better lower x v ≡ true = better_or_same lower x v e worse in
          let ih = position-count v xs s later in
          let one : suc (count (λ y. better lower y v) xs) ≡ 1 + count (λ y. better lower y v) xs =
            omega arith in
          rw (e, best, ih) (ap some one)
    ]
  ]

  In-present_values :
      (v : Num) (values : List (Option Num)) → In (some v) values → In v (present_values values)
  unfolding present_values
  In-present_values v [] m = m
  In-present_values v (none ∷ values) (inl e) = cc
  In-present_values v (none ∷ values) (inr m) = In-present_values v values m
  In-present_values v (some w ∷ values) (inl e) = inl (cc e)
  In-present_values v (some w ∷ values) (inr m) = inr (In-present_values v values m)

  -- The rank of a value of a row is the number of values in the row that are strictly better.
  pub rank_of-count :
      (v : Num) (values : List (Option Num))
      → In (some v) values
      → rank_of v values lower ≡ some (count (λ y. better lower y v) (present_values values))
  unfolding rank_of
  rank_of-count v values m =
      let present = present_values values in
      position-count v (sort (better lower) present)
        (sort-IsSorted (better lower) (better_asymm lower) (better_trans lower) present)
        ((In-sort (better lower) v present).1 (In-present_values v values m))
      ∙ ap some (count-sort (better lower) (λ y. better lower y v) present)
