-- ===== src/Prelude/Delimiters.antt =====
-- Texts put together with a delimiter come apart in one way.
use bit_bench.Prelude.Lists.{In, All}
use bit_bench.Prelude.Text.{Str, join}
use Prim.Native.Nat.{ℕ}
use mathlib.Core.Path.{◌≡◌, refl, ap, ap₂, sym, ◌∙◌}
use mathlib.Core.Logic.{◌≢◌, inl, inr}
use mathlib.Core.List.{List, [], ◌∷◌, ◌++◌, append_assoc}

pub In-append_right : {A : Type 0} (a : A) (xs ys : List A) → In a ys → In a (xs ++ ys)
In-append_right a [] ys h = h
In-append_right a (x ∷ xs) ys h = inr (In-append_right a xs ys h)

pub In-append_left : {A : Type 0} (a : A) (xs ys : List A) → In a xs → In a (xs ++ ys)
In-append_left a (x ∷ xs) ys (inl e) = inl e
In-append_left a (x ∷ xs) ys (inr h) = inr (In-append_left a xs ys h)
In-append_left a [] ys h = elim h [ ]

-- The first delimiter ends the first part.
pub delimiter_split :
    (c : ℕ) (a b s t : Str) → ¬ (In c a) → ¬ (In c b) → a ++ c ∷ s ≡ b ++ c ∷ t → (a ≡ b) × (s ≡ t)
delimiter_split c [] [] s t ha hb e = (refl, cc)
delimiter_split c [] (y ∷ b) s t ha hb e = absurd (hb (inl cc))
delimiter_split c (x ∷ a) [] s t ha hb e = absurd (ha (inl cc))
delimiter_split c (x ∷ a) (y ∷ b) s t ha hb e =
    let (p, q) = delimiter_split c a b s t (λ m. ha (inr m)) (λ m. hb (inr m)) cc in (cc, q)

pub delimiter_absent : (c : ℕ) (a b t : Str) → ¬ (In c a) → a ≡ b ++ c ∷ t → ⊥
delimiter_absent c a b t h e = h (rw e (In-append_right c b (c ∷ t) (inl refl)))

-- A part is not empty and holds no delimiter.
abbrev pub IsPart : ℕ → Str → Type 0
IsPart c s = (s ≢ []) × (¬ (In c s))

join-ne-nil : (c : ℕ) (s : Str) (r : List Str) → s ≢ [] → join (c ∷ []) (s ∷ r) ≢ []
unfolding join
join-ne-nil c [] r h e = h refl
join-ne-nil c (x ∷ s) [] h e = cc
join-ne-nil c (x ∷ s) (t ∷ r) h e = cc

join-two :
    (c : ℕ) (s t : Str) (r : List Str) → join (c ∷ []) (s ∷ t ∷ r) ≡ s ++ c ∷ join (c ∷ []) (t ∷ r)
unfolding join
join-two c s t r = append_assoc s (c ∷ []) (join (c ∷ []) (t ∷ r))

-- The parts are recovered from their join.
pub join-injective :
    (c : ℕ) (ps qs : List Str)
    → All (IsPart c) ps
    → All (IsPart c) qs
    → join (c ∷ []) ps ≡ join (c ∷ []) qs
    → ps ≡ qs
unfolding join
join-injective c [] [] hp hq e = refl
join-injective c [] (t ∷ qs) hp ((ne, _), _) e = absurd (join-ne-nil c t qs ne (sym e))
join-injective c (s ∷ ps) [] ((ne, _), _) hq e = absurd (join-ne-nil c s ps ne e)
join-injective c (s ∷ []) (t ∷ []) hp hq e = ap (λ u. u ∷ []) e
join-injective c (s ∷ []) (t ∷ t' ∷ qs) ((_, free), _) hq e =
    absurd (delimiter_absent c s t _ free (e ∙ join-two c t t' qs))
join-injective c (s ∷ s' ∷ ps) (t ∷ []) hp ((_, free), _) e =
    absurd (delimiter_absent c t s _ free (sym e ∙ join-two c s s' ps))
join-injective c (s ∷ s' ∷ ps) (t ∷ t' ∷ qs) ((_, hs), hp) ((_, ht), hq) e =
    let (p, q) =
      delimiter_split c s t _ _ hs ht (sym (join-two c s s' ps) ∙ e ∙ join-two c t t' qs) in
    ap₂ ◌∷◌ p (join-injective c (s' ∷ ps) (t' ∷ qs) hp hq q)

-- The last delimiter ends the first part.
pub last_delimiter :
    (c : ℕ) (a b s t : Str) → ¬ (In c s) → ¬ (In c t) → a ++ c ∷ s ≡ b ++ c ∷ t → s ≡ t
last_delimiter c [] [] s t h h' e = cc
last_delimiter c [] (y ∷ b) s t h h' e =
    let e' : s ≡ b ++ c ∷ t = cc in absurd (h (rw e' (In-append_right c b (c ∷ t) (inl refl))))
last_delimiter c (x ∷ a) [] s t h h' e =
    let e' : a ++ c ∷ s ≡ t = cc in
    absurd (h' (rw (sym e') (In-append_right c a (c ∷ s) (inl refl))))
last_delimiter c (x ∷ a) (y ∷ b) s t h h' e = last_delimiter c a b s t h h' cc
