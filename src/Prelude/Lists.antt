-- ===== src/Prelude/Lists.antt =====
-- Arrays as lists, measured and indexed by native numbers.
use Prim.Native.Nat.{ℕ, zero, suc, ◌+◌, ◌-◌, ◌<◌, ◌≤◌, min}
use mathlib.Core.Path.{◌≡◌, refl, ap, sym, subst}
use mathlib.Core.Logic.{◌↔◌, ◌⊎◌, inl, inr}
use mathlib.Core.Bool.{Bool, true, false, ◌||◌}
use mathlib.Core.List.{List, [], ◌∷◌, ◌++◌, map}
use mathlib.Core.Option.{Option, none, some}
use native.Mathlib.Omega.{arith}
use bit_bench.Prelude.Tests.{if◌then◌else◌, Bool-cases}

module _ {ℓ} {A : Type ℓ} where
  abbrev pub length : List A → ℕ
  length [] = 0
  length (x ∷ xs) = suc (length xs)

  abbrev pub get_elem? : List A → ℕ → Option A
  get_elem? [] i = none
  get_elem? (x ∷ xs) zero = some x
  get_elem? (x ∷ xs) (suc i) = get_elem? xs i

  abbrev pub take : ℕ → List A → List A
  take zero xs = []
  take (suc n) [] = []
  take (suc n) (x ∷ xs) = x ∷ take n xs

  abbrev pub drop : ℕ → List A → List A
  drop zero xs = xs
  drop (suc n) [] = []
  drop (suc n) (x ∷ xs) = drop n xs

  abbrev pub replicate : ℕ → A → List A
  replicate zero a = []
  replicate (suc n) a = a ∷ replicate n a

  -- `Array.prototype.filter` with a Boolean test.
  abbrev pub keep : (A → Bool) → List A → List A
  keep p [] = []
  keep p (x ∷ xs) = if p x then x ∷ keep p xs else keep p xs

  -- `Array.prototype.some`
  abbrev pub any : (A → Bool) → List A → Bool
  any p [] = false
  any p (x ∷ xs) = p x || any p xs

  -- `Array.prototype.find`
  abbrev pub find : (A → Bool) → List A → Option A
  find p [] = none
  find p (x ∷ xs) = if p x then some x else find p xs

  -- `Array.prototype.filter` with a test on the index, counted from `i`.
  abbrev pub keep_index : (ℕ → Bool) → ℕ → List A → List A
  keep_index p i [] = []
  keep_index p i (x ∷ xs) = if p i then x ∷ keep_index p (suc i) xs else keep_index p (suc i) xs

  -- `Array.prototype.map` with the index, counted from `i`.
  abbrev pub map_index {κ} : {B : Type κ} → (ℕ → A → B) → ℕ → List A → List B
  map_index f i [] = []
  map_index f i (x ∷ xs) = f i x ∷ map_index f (suc i) xs

  abbrev pub All {κ} : (A → Type κ) → List A → Type κ
  All P [] = Unit
  All P (x ∷ xs) = P x × All P xs

module _ {A : Type 0} where
  -- Membership as a computed disjunction.
  abbrev pub In : A → List A → Type 0
  In a [] = ⊥
  In a (x ∷ xs) = (a ≡ x) ⊎ In a xs

  -- No element stands twice.
  abbrev pub AllDistinct : List A → Type 0
  AllDistinct [] = Unit {0}
  AllDistinct (x ∷ xs) = (¬ (In x xs)) × AllDistinct xs

  pub In-append : (a : A) (xs ys : List A) → In a (xs ++ ys) → In a xs ⊎ In a ys
  In-append a [] ys h = inr h
  In-append a (x ∷ xs) ys (inl e) = inl (inl e)
  In-append a (x ∷ xs) ys (inr h) = elim (In-append a xs ys h) [
    | inl l ↦ inl (inr l)
    | inr r ↦ inr r
  ]

module _ {ℓ} {A : Type ℓ} where
  pub length-append : (xs ys : List A) → length (xs ++ ys) ≡ length xs + length ys
  length-append [] ys = omega arith
  length-append (x ∷ xs) ys = omega (arith, length-append xs ys)

  pub length-take : (n : ℕ) (xs : List A) → length (take n xs) ≡ min n (length xs)
  length-take zero xs = omega arith
  length-take (suc n) [] = omega arith
  length-take (suc n) (x ∷ xs) = omega (arith, length-take n xs)

  pub length-drop : (n : ℕ) (xs : List A) → length (drop n xs) ≡ length xs - n
  length-drop zero xs = omega arith
  length-drop (suc n) [] = omega arith
  length-drop (suc n) (x ∷ xs) = omega (arith, length-drop n xs)

  pub take-append-drop : (n : ℕ) (xs : List A) → take n xs ++ drop n xs ≡ xs
  take-append-drop zero xs = refl
  take-append-drop (suc n) [] = refl
  take-append-drop (suc n) (x ∷ xs) = rw (take-append-drop n xs)

  pub take-append_self : (xs ys : List A) → take (length xs) (xs ++ ys) ≡ xs
  take-append_self [] ys = refl
  take-append_self (x ∷ xs) ys = ap (x ∷◌) (take-append_self xs ys)

  pub drop-append_self : (xs ys : List A) → drop (length xs) (xs ++ ys) ≡ ys
  drop-append_self [] ys = refl
  drop-append_self (x ∷ xs) ys = drop-append_self xs ys

  pub length-map {κ} : {B : Type κ} (xs : List A) (f : A → B) → length (map f xs) ≡ length xs
  length-map [] f = refl
  length-map (x ∷ xs) f = ap suc (length-map xs f)

  pub length-map_index {κ} :
      {B : Type κ} (f : ℕ → A → B) (i : ℕ) (xs : List A) → length (map_index f i xs) ≡ length xs
  length-map_index f i [] = refl
  length-map_index f i (x ∷ xs) = ap suc (length-map_index f (suc i) xs)

  pub get_elem?-map_index {κ} :
      {B : Type κ} (f : ℕ → A → B) (i k : ℕ) (xs : List A) (x : A)
      → get_elem? xs k ≡ some x
      → get_elem? (map_index f i xs) k ≡ some (f (i + k) x)
  get_elem?-map_index f i k [] x h = cc
  get_elem?-map_index f i zero (y ∷ xs) x h = let e : i + 0 ≡ i = omega arith in rw e (ground arith)
  get_elem?-map_index f i (suc k) (y ∷ xs) x h =
      let e : i + suc k ≡ suc i + k = omega arith in rw e (get_elem?-map_index f (suc i) k xs x h)

  pub take_all : (n : ℕ) (xs : List A) → length xs ≤ n → take n xs ≡ xs
  take_all zero [] h = refl
  take_all zero (x ∷ xs) h = absurd (omega arith)
  take_all (suc n) [] h = refl
  take_all (suc n) (x ∷ xs) h = ap (x ∷◌) (take_all n xs (omega arith))

  pub get_elem?-map {κ} :
      {B : Type κ} (f : A → B) (i : ℕ) (xs : List A) (x : A)
      → get_elem? xs i ≡ some x
      → get_elem? (map f xs) i ≡ some (f x)
  get_elem?-map f i [] x h = cc
  get_elem?-map f zero (y ∷ xs) x h = ground arith
  get_elem?-map f (suc i) (y ∷ xs) x h = get_elem?-map f i xs x h

  pub lt-length_of_get_elem? :
      (xs : List A) (i : ℕ) (x : A) → get_elem? xs i ≡ some x → i < length xs
  lt-length_of_get_elem? [] i x h = cc
  lt-length_of_get_elem? (y ∷ xs) zero x h = omega arith
  lt-length_of_get_elem? (y ∷ xs) (suc i) x h = omega (arith, lt-length_of_get_elem? xs i x h)

module _ {A : Type 0} where
  pub All-In {κ} : (P : A → Type κ) (xs : List A) (x : A) → All P xs → In x xs → P x
  All-In P (y ∷ xs) x (here, h) (inl e) = subst P (sym e) here
  All-In P (y ∷ xs) x (here, h) (inr m) = All-In P xs x h m
  All-In P [] x h m = elim m [ ]

  pub All-of_In {κ} : (P : A → Type κ) (xs : List A) → ((x : A) → In x xs → P x) → All P xs
  All-of_In P [] h = tt
  All-of_In P (x ∷ xs) h = (h x (inl refl), All-of_In P xs (λ y m. h y (inr m)))

-- What passes a filter.
pub In-keep :
    {A : Type 0} (p : A → Bool) (c : A) (xs : List A) → In c (keep p xs) ↔ (In c xs × (p c ≡ true))
In-keep p c [] = ((λ m. elim m [ ]), λ h. h.0)
In-keep p c (x ∷ xs) =
    let (to, from) = In-keep p c xs in
    elim (Bool-cases (p x)) [
      | inl e ↦ rw e (
        (λ m. elim m [
          | inl q ↦ (inl q, subst (λ y. p y ≡ true) (sym q) e)
          | inr r ↦ let (a, b) = to r in (inr a, b)
        ]),
        (λ h. elim h.0 [ inl q ↦ inl q | inr r ↦ inr (from (r, h.1)) ]),
      )
      | inr e ↦ rw e (
        (λ m. let (a, b) = to m in (inr a, b)),
        (λ h. elim h.0 [ inl q ↦ absurd (cc (e, h.1, ap p q)) | inr r ↦ from (r, h.1) ]),
      )
    ]
