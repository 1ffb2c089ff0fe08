-- ===== src/Backend/Rows.antt =====
-- Rows in the order of the list, before and behind a cursor.
use bit_bench.Prelude.{
  Bool, ◌≡◌, refl, ◌≢◌, inl, inr, none, some, List, [], ◌∷◌, ◌++◌, true, false, ap, subst,
  Bool-cases, map, keep, take, drop, length, ltb, arith, All, ℕ, zero, suc, ◌<◌, ◌≤◌,
}
use bit_bench.Prelude.Ordered.{All-keep, All-mono, keep_passing}
use bit_bench.Backend.Listing.{Row, is_before, last_time}

-- The latest row first, and no two of one time.
abbrev pub Descending : List Row → Type 0
Descending [] = Unit {0}
Descending (row ∷ rows) = All (λ r. r.created_at < row.created_at) rows × Descending rows

pub is_lt : (a b : ℕ) → a < b → ltb a b ≡ true
is_lt a b h = ground arith

keep-All :
    (t : ℕ) (rows : List Row)
    → All (λ r. r.created_at < t) rows
    → keep (is_before (some t)) rows ≡ rows
unfolding is_before
keep-All t rows h = keep_passing _ rows (All-mono _ _ rows (λ r p. is_lt r.created_at t p) h)

last_below :
    (t u : ℕ) (A B : List Row) → All (λ r. r.created_at < u) (A ++ B) → last_time A ≡ some t → t < u
unfolding last_time
last_below t u [] B h e = cc
last_below t u (a ∷ []) B (p, h) e = ground arith
last_below t u (a ∷ a' ∷ A) B (p, h) e = last_below t u (a' ∷ A) B h e

-- The rows behind a row are those that were created before it.
pub keep-after :
    (t : ℕ) (A B : List Row)
    → Descending (A ++ B)
    → last_time A ≡ some t
    → keep (is_before (some t)) (A ++ B) ≡ B
unfolding last_time is_before
keep-after t [] B d e = cc
keep-after t (a ∷ []) B (below, d) e =
    let same : a.created_at ≡ t = ground arith in
    let no : ltb a.created_at t ≡ false = ground arith in
    rw no (keep-All t B (subst (λ u. All (λ r. r.created_at < u) B) same below))
keep-after t (a ∷ a' ∷ A) B (below, d) e =
    let small = last_below t a.created_at (a' ∷ A) B below e in
    let no : ltb a.created_at t ≡ false = ground arith in rw no (keep-after t (a' ∷ A) B d e)

pub last_time-append : (A B : List Row) → B ≢ [] → last_time (A ++ B) ≡ last_time B
unfolding last_time
last_time-append [] B ne = refl
last_time-append (a ∷ []) [] ne = absurd (ne refl)
last_time-append (a ∷ []) (b ∷ B) ne = refl
last_time-append (a ∷ a' ∷ A) B ne = last_time-append (a' ∷ A) B ne

last_time-some : (a : Row) (A : List Row) → (t : ℕ) × (last_time (a ∷ A) ≡ some t)
unfolding last_time
last_time-some a [] = (a.created_at, refl)
last_time-some a (a' ∷ A) = last_time-some a' A

pub not_lt : (a b : ℕ) → b ≤ a → ltb a b ≡ false
not_lt a b h = ground arith

pub take-take : {A : Type 0} (m n : ℕ) (xs : List A) → m ≤ n → take m (take n xs) ≡ take m xs
take-take zero n xs h = refl
take-take (suc m) zero xs h = absurd (omega arith)
take-take (suc m) (suc n) [] h = refl
take-take (suc m) (suc n) (x ∷ xs) h = ap (x ∷◌) (take-take m n xs (omega arith))

pub shown-split :
    (n : ℕ) (left : List Row)
    → map (λ row. row.shown) (take n left) ++ map (λ row. row.shown) (drop n left)
      ≡ map (λ row. row.shown) left
shown-split zero left = refl
shown-split (suc n) [] = refl
shown-split (suc n) (r ∷ left) = ap (r.shown ∷◌) (shown-split n left)

pub last_time-take :
    (n : ℕ) (left : List Row) → n < length left → (t : ℕ) × (last_time (take (suc n) left) ≡ some t)
last_time-take n [] h = absurd (omega arith)
last_time-take n (r ∷ left) h = last_time-some r (take n left)

pub take-ne-nil : (n : ℕ) (left : List Row) → n < length left → take (suc n) left ≢ []
take-ne-nil n [] h e = absurd (omega arith)
take-ne-nil n (r ∷ left) h e = cc

pub keep-Descending :
    (test : Row → Bool) (left : List Row) → Descending left → Descending (keep test left)
keep-Descending test [] h = tt
keep-Descending test (r ∷ left) (below, h) = elim (Bool-cases (test r)) [
  | inl e ↦ rw e (All-keep _ test left below, keep-Descending test left h)
  | inr e ↦ rw e (keep-Descending test left h)
]

pub keep_before_none : (left : List Row) → keep (is_before none) left ≡ left
unfolding is_before
keep_before_none [] = refl
keep_before_none (r ∷ left) = ap (r ∷◌) (keep_before_none left)
