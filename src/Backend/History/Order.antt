-- ===== src/Backend/History/Order.antt =====
-- Rows of the history, and fingerprints, in the order of their use.
use bit_bench.Prelude.{
  ℕ, zero, suc, ◌≡◌, ◌≢◌, refl, ap, sym, subst, ◌∙◌, inl, inr, List, [], ◌∷◌, Bool, true, false,
  not, Bool-cases, Str, str_eq, str_eq_iff, keep, take, sort, All, arith,
}
use bit_bench.Prelude.Ordered.{keep-ext, keep_passing, Distinguished, keep-Distinguished}
use bit_bench.Backend.Rows.{take-take}
use bit_bench.Backend.History.{ConfigHistory, of_user, is_later, is_listed, is_conflict, refresh}

pub not_self : (a b : Str) → a ≢ b → str_eq a b ≡ false
not_self a b ne = elim (Bool-cases (str_eq a b)) [
  | inl e ↦ absurd (ne ((str_eq_iff a b).0 e))
  | inr e ↦ e
]

pub differs : (a b : Str) → str_eq a b ≡ false → a ≢ b
differs a b e same = cc (e, (str_eq_iff a b).1 same)

-- `f` in front of the others.
abbrev pub in_front : Str → List Str → List Str
in_front f fs = f ∷ keep (λ g. not (str_eq g f)) fs

keep_others : (f : Str) (fs : List Str) → All (λ g. g ≢ f) (keep (λ g. not (str_eq g f)) fs)
keep_others f [] = tt
keep_others f (g ∷ fs) = elim (Bool-cases (str_eq g f)) [
  | inl e ↦ rw e (keep_others f fs)
  | inr e ↦ rw e (differs g f e, keep_others f fs)
]

pub in_front-Distinguished :
    (f : Str) (fs : List Str) → Distinguished (λ g. g) fs → Distinguished (λ g. g) (in_front f fs)
in_front-Distinguished f fs h = (keep_others f fs, keep-Distinguished (λ g. g) _ fs h)

others_pass :
    (f : Str) (fs : List Str) → All (λ g. g ≢ f) fs → All (λ g. not (str_eq g f) ≡ true) fs
others_pass f [] h = tt
others_pass f (g ∷ fs) (ne, h) = (rw (not_self g f ne) refl, others_pass f fs h)

pub All-take : {A : Type 0} (P : A → Type 0) (n : ℕ) (xs : List A) → All P xs → All P (take n xs)
All-take P zero xs h = tt
All-take P (suc n) [] h = tt
All-take P (suc n) (x ∷ xs) (p, h) = (p, All-take P n xs h)

-- One more than is kept is enough to put `f` in front.
pub take-others :
    (f : Str) (n : ℕ) (fs : List Str)
    → Distinguished (λ g. g) fs
    → take n (keep (λ g. not (str_eq g f)) (take (suc n) fs))
      ≡ take n (keep (λ g. not (str_eq g f)) fs)
take-others f zero fs h = refl
take-others f (suc n) [] h = refl
take-others f (suc n) (g ∷ fs) (new, h) = elim (Bool-cases (str_eq g f)) [
  | inl e ↦
      let same : g ≡ f = (str_eq_iff g f).0 e in
      let others : All (λ k. k ≢ f) fs = subst (λ a. All (λ k. k ≢ a) fs) same new in
      let kept =
        keep_passing _ (take (suc n) fs) (others_pass f _ (All-take _ (suc n) fs others)) in
      rw (e, keep_passing _ fs (others_pass f fs others), kept)
        (take-take (suc n) (suc n) fs (omega arith))
  | inr e ↦ rw e (ap (g ∷◌) (take-others f n fs h))
]

module _ {Options : Type 0} where
  pub later_asymm : (a b : ConfigHistory Options) → is_later a b ≡ true → is_later b a ≡ false
  unfolding is_later
  later_asymm a b h = ground arith

  pub later_trans :
      (a b c : ConfigHistory Options)
      → is_later b a ≡ false
      → is_later c b ≡ false
      → is_later c a ≡ false
  unfolding is_later
  later_trans a b c h k = ground arith

  -- The rows of a user, the latest first.
  abbrev pub history_of : Str → List (ConfigHistory Options) → List (ConfigHistory Options)
  history_of user rows = sort is_later (keep (of_user user) rows)

  pub keep-keep :
      (p q : ConfigHistory Options → Bool) (rows : List (ConfigHistory Options))
      → ((r : ConfigHistory Options) → p r ≡ true → q r ≡ true)
      → keep p (keep q rows) ≡ keep p rows
  keep-keep p q [] h = refl
  keep-keep p q (r ∷ rows) h = elim (Bool-cases (q r)) [
    | inl e ↦ rw (e, keep-keep p q rows h) refl
    | inr e ↦ elim (Bool-cases (p r)) [
      | inl k ↦ absurd (cc (e, h r k))
      | inr k ↦ rw (e, k) (keep-keep p q rows h)
    ]
  ]

  not_first :
      (r : ConfigHistory Options) (listed rows : List (ConfigHistory Options))
      → All (λ s. s.id ≢ r.id) rows
      → All (λ s. is_listed (r ∷ listed) s ≡ is_listed listed s) rows
  unfolding is_listed
  not_first r listed [] h = tt
  not_first r listed (s ∷ rows) (ne, h) =
      (rw (not_self r.id s.id (λ e. ne (sym e))) refl, not_first r listed rows h)

  pub keep-is_listed :
      (n : ℕ) (rows : List (ConfigHistory Options))
      → Distinguished (λ r. r.id) rows
      → keep (is_listed (take n rows)) rows ≡ take n rows
  unfolding is_listed
  keep-is_listed zero [] h = refl
  keep-is_listed zero (r ∷ rows) (new, h) = keep-is_listed zero rows h
  keep-is_listed (suc n) [] h = refl
  keep-is_listed (suc n) (r ∷ rows) (new, h) =
      rw ((str_eq_iff r.id r.id).1 refl) (
        ap (r ∷◌)
          (keep-ext _ _ rows (not_first r (take n rows) rows new) ∙ keep-is_listed n rows h))

  pub All-refresh :
      (P Q : ConfigHistory Options → Type 0) (user f : Str) (now : ℕ)
      (rows : List (ConfigHistory Options))
      → ((r : ConfigHistory Options) → P r → Q r)
      → ((r : ConfigHistory Options) → P r → Q (record r { last_used_at = now }))
      → All P rows
      → All Q (refresh user f now rows)
  unfolding refresh
  All-refresh P Q user f now [] same moved h = tt
  All-refresh P Q user f now (r ∷ rows) same moved (p, h) =
      let rest = All-refresh P Q user f now rows same moved h in
      elim (Bool-cases (is_conflict user f r)) [
        | inl e ↦ rw e (moved r p, rest)
        | inr e ↦ rw e (same r p, rest)
      ]
