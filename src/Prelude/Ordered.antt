-- ===== src/Prelude/Ordered.antt =====
-- Filtering a list and sorting it, in either order; and lists whose elements have different keys.
use mathlib.Core.Path.{◌≡◌, refl, sym, ◌∙◌}
use mathlib.Core.Logic.{◌≢◌, inl, inr}
use mathlib.Core.Bool.{Bool, true, false}
use mathlib.Core.List.{List, [], ◌∷◌}
use bit_bench.Prelude.Tests.{Bool-cases}
use bit_bench.Prelude.Lists.{All, keep}
use bit_bench.Prelude.Sort.{insert, sort, IsSorted, All-insert, All-trans, sort-IsSorted}

module _ {A : Type 0} where
  pub All-keep : (P : A → Type 0) (p : A → Bool) (xs : List A) → All P xs → All P (keep p xs)
  All-keep P p [] h = tt
  All-keep P p (x ∷ xs) (here, h) = elim (Bool-cases (p x)) [
    | inl e ↦ rw e (here, All-keep P p xs h)
    | inr e ↦ rw e (All-keep P p xs h)
  ]

  pub All-mono : (P Q : A → Type 0) (xs : List A) → ((x : A) → P x → Q x) → All P xs → All Q xs
  All-mono P Q [] f h = tt
  All-mono P Q (x ∷ xs) f (p, h) = (f x p, All-mono P Q xs f h)

  -- Filters that agree on the elements of a list.
  pub keep-ext : (p q : A → Bool) (xs : List A) → All (λ x. p x ≡ q x) xs → keep p xs ≡ keep q xs
  keep-ext p q [] h = refl
  keep-ext p q (x ∷ xs) (e, h) = rw (e, keep-ext p q xs h) refl

  pub keep_passing : (p : A → Bool) (xs : List A) → All (λ x. p x ≡ true) xs → keep p xs ≡ xs
  keep_passing p [] h = refl
  keep_passing p (x ∷ xs) (e, h) = rw (e, keep_passing p xs h) refl

  -- `R` holds of each element and those behind it.
  abbrev pub Pairwise : (A → A → Type 0) → List A → Type 0
  Pairwise R [] = Unit {0}
  Pairwise R (x ∷ xs) = All (R x) xs × Pairwise R xs

  pub keep-Pairwise :
      (R : A → A → Type 0) (p : A → Bool) (xs : List A) → Pairwise R xs → Pairwise R (keep p xs)
  keep-Pairwise R p [] h = tt
  keep-Pairwise R p (x ∷ xs) (new, h) = elim (Bool-cases (p x)) [
    | inl e ↦ rw e (All-keep (R x) p xs new, keep-Pairwise R p xs h)
    | inr e ↦ rw e (keep-Pairwise R p xs h)
  ]

  -- The elements have different keys.
  abbrev pub Distinguished : {B : Type 0} → (A → B) → List A → Type 0
  Distinguished key xs = Pairwise (λ x y. key y ≢ key x) xs

  pub keep-Distinguished :
      {B : Type 0} (key : A → B) (p : A → Bool) (xs : List A)
      → Distinguished key xs
      → Distinguished key (keep p xs)
  keep-Distinguished key p xs h = keep-Pairwise _ p xs h

  module _ (lt : A → A → Bool) where
    pub All-sort : (P : A → Type 0) (xs : List A) → All P xs → All P (sort lt xs)
    unfolding sort
    All-sort P [] h = tt
    All-sort P (x ∷ xs) (here, h) = All-insert lt P x (sort lt xs) here (All-sort P xs h)

    pub insert_first :
        (x : A) (ys : List A) → All (λ y. lt y x ≡ false) ys → insert lt x ys ≡ x ∷ ys
    unfolding insert
    insert_first x [] h = refl
    insert_first x (y ∷ ys) (e, h) = rw e refl

    insert-Distinguished :
        {B : Type 0} (key : A → B) (x : A) (ys : List A)
        → All (λ y. key y ≢ key x) ys
        → Distinguished key ys
        → Distinguished key (insert lt x ys)
    unfolding insert
    insert-Distinguished key x [] new h = (tt, tt)
    insert-Distinguished key x (y ∷ ys) (ne, new) (fresh, h) = elim (Bool-cases (lt y x)) [
      | inl e ↦ rw e (
        All-insert lt (λ z. key z ≢ key y) x ys (λ q. ne (cc q)) fresh,
        insert-Distinguished key x ys new h,
      )
      | inr e ↦ rw e ((ne, new), (fresh, h))
    ]

    pub sort-Distinguished :
        {B : Type 0} (key : A → B) (xs : List A)
        → Distinguished key xs
        → Distinguished key (sort lt xs)
    unfolding sort
    sort-Distinguished key [] h = tt
    sort-Distinguished key (x ∷ xs) (new, h) =
        insert-Distinguished key x (sort lt xs) (All-sort _ xs new) (sort-Distinguished key xs h)

    module _ (asymm : (a b : A) → lt a b ≡ true → lt b a ≡ false)
        (trans : (a b c : A) → lt b a ≡ false → lt c b ≡ false → lt c a ≡ false)
        (p : A → Bool) where
      keep-insert :
          (x : A) (ys : List A)
          → p x ≡ true
          → IsSorted lt ys
          → keep p (insert lt x ys) ≡ insert lt x (keep p ys)
      unfolding insert
      keep-insert x [] h s = rw h refl
      keep-insert x (y ∷ ys) h (first, s) = elim (Bool-cases (lt y x)) [
        | inl e ↦ elim (Bool-cases (p y)) [
          | inl k ↦ rw (e, k, keep-insert x ys h s) (rw (e, insert) refl)
          | inr k ↦ rw (e, k) (keep-insert x ys h s)
        ]
        | inr e ↦
            let later = All-trans lt asymm trans x y ys e first in
            let front = insert_first x (keep p (y ∷ ys)) (All-keep _ p (y ∷ ys) (e, later)) in
            rw (e, h) (sym front)
      ]

      keep-insert_dropped :
          (x : A) (ys : List A) → p x ≡ false → keep p (insert lt x ys) ≡ keep p ys
      unfolding insert
      keep-insert_dropped x [] h = rw h refl
      keep-insert_dropped x (y ∷ ys) h = elim (Bool-cases (lt y x)) [
        | inl e ↦ rw (e, keep-insert_dropped x ys h) refl
        | inr e ↦ rw (e, h) refl
      ]

      pub keep-sort : (xs : List A) → keep p (sort lt xs) ≡ sort lt (keep p xs)
      unfolding sort
      keep-sort [] = refl
      keep-sort (x ∷ xs) = elim (Bool-cases (p x)) [
        | inl e ↦
            keep-insert x (sort lt xs) e (sort-IsSorted lt asymm trans xs)
            ∙ rw (e, sort, keep-sort xs) refl
        | inr e ↦ keep-insert_dropped x (sort lt xs) e ∙ rw e (keep-sort xs)
      ]
