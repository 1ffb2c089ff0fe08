-- ===== src/Backend/Sorting.antt =====
-- Sorted lists of distinct texts: their order is told by their elements.
use bit_bench.Prelude.{
  ◌≡◌, refl, inl, inr, List, [], ◌∷◌, true, false, ap₂, sym, Str, str_lt, sort, In, All-In,
  AllDistinct, arith, In-sort, sort-AllDistinct, sort-IsSorted, IsSorted,
}

str_lt_asymm : (s t : Str) → str_lt s t ≡ true → str_lt t s ≡ false
unfolding str_lt
str_lt_asymm [] [] h = cc
str_lt_asymm [] (b ∷ t) h = refl
str_lt_asymm (a ∷ s) [] h = cc
str_lt_asymm (a ∷ s) (b ∷ t) h = ground (arith, str_lt_asymm s t)

str_lt_connected : (s t : Str) → str_lt s t ≡ false → str_lt t s ≡ false → s ≡ t
unfolding str_lt
str_lt_connected [] [] h h' = refl
str_lt_connected [] (b ∷ t) h h' = cc
str_lt_connected (a ∷ s) [] h h' = cc
str_lt_connected (a ∷ s) (b ∷ t) h h' = ground (arith, str_lt_connected s t)

str_lt_trans : (s t u : Str) → str_lt t s ≡ false → str_lt u t ≡ false → str_lt u s ≡ false
unfolding str_lt
str_lt_trans [] [] u h h' = h'
str_lt_trans [] (b ∷ t) u h h' = cc
str_lt_trans (a ∷ s) t [] h h' = ground arith
str_lt_trans (a ∷ s) [] (c ∷ u) h h' = ground arith
str_lt_trans (a ∷ s) (b ∷ t) (c ∷ u) h h' = ground (arith, str_lt_trans s t u)

In-tail :
    (x a : Str) (xs ys : List Str)
    → ¬ (In x xs)
    → ((b : Str) → In b (x ∷ xs) → In b (x ∷ ys))
    → In a xs
    → In a ys
In-tail x a xs ys new f m = elim (f a (inr m)) [ inl e ↦ absurd (new (rw (sym e) m)) | inr r ↦ r ]

-- Two sorted lists of the same distinct texts are one list.
IsSorted-unique :
    (xs ys : List Str)
    → IsSorted str_lt xs
    → IsSorted str_lt ys
    → AllDistinct xs
    → AllDistinct ys
    → ((a : Str) → In a xs → In a ys)
    → ((a : Str) → In a ys → In a xs)
    → xs ≡ ys
IsSorted-unique [] [] s s' d d' f g = refl
IsSorted-unique [] (y ∷ ys) s s' d d' f g = absurd (g y (inl refl))
IsSorted-unique (x ∷ xs) [] s s' d d' f g = absurd (f x (inl refl))
IsSorted-unique (x ∷ xs) (y ∷ ys) (first, s) (first', s') (new, d) (new', d') f g =
    let same : x ≡ y = elim (f x (inl refl)) [
      | inl e ↦ e
      | inr m ↦ elim (g y (inl refl)) [
        | inl e ↦ sym e
        | inr m' ↦
            str_lt_connected x y (All-In (λ z. str_lt z y ≡ false) ys x first' m)
              (All-In (λ z. str_lt z x ≡ false) xs y first m')
      ]
    ] in
    ap₂ ◌∷◌ same (
      IsSorted-unique xs ys s s' d d' (λ a. In-tail x a xs ys new (λ b m. rw same (f b m)))
        (λ a. In-tail y a ys xs new' (λ b m. rw (sym same) (g b m))))

-- Sorting forgets the order of distinct texts.
pub sort-same :
    (xs ys : List Str)
    → AllDistinct xs
    → AllDistinct ys
    → ((a : Str) → In a xs → In a ys)
    → ((a : Str) → In a ys → In a xs)
    → sort str_lt xs ≡ sort str_lt ys
sort-same xs ys d d' f g =
    IsSorted-unique (sort str_lt xs) (sort str_lt ys)
      (sort-IsSorted str_lt str_lt_asymm str_lt_trans xs)
      (sort-IsSorted str_lt str_lt_asymm str_lt_trans ys) (sort-AllDistinct str_lt xs d)
      (sort-AllDistinct str_lt ys d')
      (λ a m. (In-sort str_lt a ys).1 (f a ((In-sort str_lt a xs).0 m)))
      (λ a m. (In-sort str_lt a xs).1 (g a ((In-sort str_lt a ys).0 m)))
