-- ===== src/Prelude/Sort.antt =====
-- `Array.prototype.sort`: a stable sort by a comparator, here by insertion.
use mathlib.Core.Path.{◌≡◌, sym}
use mathlib.Core.Logic.{◌↔◌, inl, inr}
use mathlib.Core.Bool.{Bool, true, false}
use mathlib.Core.List.{List, [], ◌∷◌, Perm}
use mathlib.Core.List.Perm
use bit_bench.Prelude.Tests.{if◌then◌else◌, Bool-cases}
use bit_bench.Prelude.Lists.{In, AllDistinct, All}

-- `lt a b` holds if the comparator puts `a` strictly before `b`.
module _ {ℓ} {A : Type ℓ} (lt : A → A → Bool) where
  -- Puts `x` behind the elements that come strictly before it: `x` stood before all of them.
  unfoldable pub insert : A → List A → List A
  insert x [] = x ∷ []
  insert x (y ∷ ys) = if lt y x then y ∷ insert x ys else x ∷ y ∷ ys

  unfoldable pub sort : List A → List A
  unfolding insert
  sort [] = []
  sort (x ∷ xs) = insert x (sort xs)

  pub insert-perm : (x : A) (ys : List A) → Perm (insert x ys) (x ∷ ys)
  unfolding insert
  insert-perm x [] = Perm.refl _
  insert-perm x (y ∷ ys) = elim (Bool-cases (lt y x)) [
    | inl e ↦ rw e (Perm.trans (Perm.cons y (insert-perm x ys)) (Perm.swap _ _ _))
    | inr e ↦ rw e (Perm.refl _)
  ]

  pub sort-perm : (xs : List A) → Perm (sort xs) xs
  unfolding sort
  sort-perm [] = Perm.refl _
  sort-perm (x ∷ xs) = Perm.trans (insert-perm x (sort xs)) (Perm.cons x (sort-perm xs))

module _ {A : Type 0} (lt : A → A → Bool) where
  In-insert : (a x : A) (ys : List A) → In a (insert lt x ys) → In a (x ∷ ys)
  unfolding insert
  In-insert a x [] h = h
  In-insert a x (y ∷ ys) h = elim (Bool-cases (lt y x)) [
    | inl e ↦ elim (let h' : In a (y ∷ insert lt x ys) = rw e at h in h') [
      | inl p ↦ inr (inl p)
      | inr m ↦ elim (In-insert a x ys m) [ inl p ↦ inl p | inr r ↦ inr (inr r) ]
    ]
    | inr e ↦ rw e at h
  ]

  In-insert_of : (a x : A) (ys : List A) → In a (x ∷ ys) → In a (insert lt x ys)
  unfolding insert
  In-insert_of a x [] h = h
  In-insert_of a x (y ∷ ys) h = elim (Bool-cases (lt y x)) [
    | inl e ↦ rw e (elim h [
      | inl p ↦ inr (In-insert_of a x ys (inl p))
      | inr m ↦ elim m [ inl q ↦ inl q | inr r ↦ inr (In-insert_of a x ys (inr r)) ]
    ])
    | inr e ↦ rw e h
  ]

  -- Sorting keeps the elements, and keeps them distinct.
  pub In-sort : (a : A) (xs : List A) → In a (sort lt xs) ↔ In a xs
  unfolding sort
  In-sort a [] = ((λ h. h), (λ h. h))
  In-sort a (x ∷ xs) = (
    (λ h. elim (In-insert a x (sort lt xs) h) [ inl p ↦ inl p | inr m ↦ inr ((In-sort a xs).0 m) ]),
    (λ h.
        In-insert_of a x (sort lt xs)
          (elim h [ inl p ↦ inl p | inr m ↦ inr ((In-sort a xs).1 m) ])),
  )

  insert-AllDistinct :
      (x : A) (ys : List A) → ¬ (In x ys) → AllDistinct ys → AllDistinct (insert lt x ys)
  unfolding insert
  insert-AllDistinct x [] new h = (new, tt)
  insert-AllDistinct x (y ∷ ys) new (fresh, h) = elim (Bool-cases (lt y x)) [
    | inl e ↦ rw e (
      (λ m. elim (In-insert y x ys m) [ inl p ↦ new (inl (sym p)) | inr r ↦ fresh r ]),
      insert-AllDistinct x ys (λ m. new (inr m)) h,
    )
    | inr e ↦ rw e (new, (fresh, h))
  ]

  pub sort-AllDistinct : (xs : List A) → AllDistinct xs → AllDistinct (sort lt xs)
  unfolding sort
  sort-AllDistinct [] h = tt
  sort-AllDistinct (x ∷ xs) (new, h) =
      insert-AllDistinct x (sort lt xs) (λ m. new ((In-sort x xs).0 m)) (sort-AllDistinct xs h)

-- The sorted lists of a comparator that is a strict weak order.
module _ {A : Type 0} (lt : A → A → Bool) where
  -- No element comes strictly before one that stands ahead of it.
  abbrev pub IsSorted : List A → Type 0
  IsSorted [] = Unit {0}
  IsSorted (x ∷ xs) = All (λ y. lt y x ≡ false) xs × IsSorted xs

  pub All-insert : (P : A → Type 0) (x : A) (ys : List A) → P x → All P ys → All P (insert lt x ys)
  unfolding insert
  All-insert P x [] p h = (p, tt)
  All-insert P x (y ∷ ys) p (q, h) = elim (Bool-cases (lt y x)) [
    | inl e ↦ rw e (q, All-insert P x ys p h)
    | inr e ↦ rw e (p, (q, h))
  ]

  module _ (asymm : (a b : A) → lt a b ≡ true → lt b a ≡ false)
      (trans : (a b c : A) → lt b a ≡ false → lt c b ≡ false → lt c a ≡ false) where
    pub All-trans :
        (x y : A) (zs : List A)
        → lt y x ≡ false
        → All (λ z. lt z y ≡ false) zs
        → All (λ z. lt z x ≡ false) zs
    All-trans x y [] e h = tt
    All-trans x y (z ∷ zs) e (p, h) = (trans x y z e p, All-trans x y zs e h)

    insert-IsSorted : (x : A) (ys : List A) → IsSorted ys → IsSorted (insert lt x ys)
    unfolding insert
    insert-IsSorted x [] h = (tt, tt)
    insert-IsSorted x (y ∷ ys) (first, h) = elim (Bool-cases (lt y x)) [
      | inl e ↦
          rw e (All-insert (λ z. lt z y ≡ false) x ys (asymm y x e) first, insert-IsSorted x ys h)
      | inr e ↦ rw e ((e, All-trans x y ys e first), (first, h))
    ]

    pub sort-IsSorted : (xs : List A) → IsSorted (sort lt xs)
    unfolding sort
    sort-IsSorted [] = tt
    sort-IsSorted (x ∷ xs) = insert-IsSorted x (sort lt xs) (sort-IsSorted xs)
