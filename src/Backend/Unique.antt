-- ===== src/Backend/Unique.antt =====
-- The labels of one benchmark are made different.
use bit_bench.Prelude.{
  ◌≡◌, refl, inl, inr, Option, none, some, List, [], ◌∷◌, ◌++◌, false, ap, sym, ◌∙◌, Bool-cases,
  Option-cases, if◌then◌else◌, Str, codes, In, length, ltb, take, arith, ◌≤◌, ◌<◌, ℕ, zero, suc,
  ◌+◌, ◌-◌, has, has_iff, length-append, length-take, AllDistinct, All, append_assoc, ltb→le,
}
use bit_bench.Prelude.Decimal.{decimal, decimal-injective, decimal-IsDigit, IsDigit, length-decimal}
use bit_bench.Prelude.Delimiters.{last_delimiter}
use bit_bench.Prelude.Pigeonhole.{pigeonhole}
use bit_bench.Backend.Naming.{candidate, unique_from, with_unique_label}

digits_plain : (s : Str) → All IsDigit s → ¬ (In b'#' s)
digits_plain [] h m = m
digits_plain (c ∷ s) (d, h) (inl e) = omega arith
digits_plain (c ∷ s) (d, h) (inr m) = digits_plain s h m

candidate_base : ℕ → Str → Str
candidate_base i label =
    if ltb 64 (length label + length (codes " #" ++ decimal i))
    then take (64 - length (codes " #" ++ decimal i)) label
    else label

candidate-base :
    (i : ℕ) (label : Str)
    → candidate i label ≡ (candidate_base i label ++ 32 ∷ []) ++ b'#' ∷ decimal i
unfolding candidate candidate_base
candidate-base i label = sym (append_assoc (candidate_base i label) (32 ∷ []) (b'#' ∷ decimal i))

-- Different numbers give different candidates.
candidate-injective : (i k : ℕ) (label : Str) → candidate i label ≡ candidate k label → i ≡ k
candidate-injective i k label e = decimal-injective i k (
    last_delimiter b'#' _ _ (decimal i) (decimal k) (digits_plain (decimal i) (decimal-IsDigit i))
      (digits_plain (decimal k) (decimal-IsDigit k))
      (sym (candidate-base i label) ∙ e ∙ candidate-base k label))

-- A label that is cut for a suffix fits with it.
cut_fits :
    (label suffix : Str)
    → length suffix ≤ 64
    → length (
        (if ltb 64 (length label + length suffix) then take (64 - length suffix) label else label)
        ++ suffix)
      ≤ 64
cut_fits label suffix h = elim (Bool-cases (ltb 64 (length label + length suffix))) [
  | inl e ↦ rw e (
      omega (
        arith,
        length-append (take (64 - length suffix) label) suffix,
        length-take (64 - length suffix) label,
      ))
  | inr e ↦
      rw e (omega (arith, length-append label suffix, ltb→le 64 (length label + length suffix) e))
]

length-candidate : (i : ℕ) (label : Str) → i < 100 → length (candidate i label) ≤ 64
unfolding candidate
length-candidate i label h =
    cut_fits label (codes " #" ++ decimal i) (omega (arith, length-decimal i h))

abbrev text_or : Str → Option Str → Str
text_or d none = d
text_or d (some s) = s

some_is_none : (s : Str) → some s ≡ none → ⊥
some_is_none s e = cc

-- What the loop returns: the first candidate that is not taken.
unique_from-some :
    (f i : ℕ) (label : Str) (taken : List Str) (c : Str)
    → unique_from f i label taken ≡ some c
    → (k : ℕ) × (k < i + f) × (c ≡ candidate k label) × (has c taken ≡ false)
unfolding unique_from
unique_from-some zero i label taken c h = cc
unique_from-some (suc f) i label taken c h = elim (Bool-cases (has (candidate i label) taken)) [
  | inl e ↦
      let (k, small, same, new) = unique_from-some f (suc i) label taken c (rw e at h) in
      (k, omega arith, same, new)
  | inr e ↦
      let same : candidate i label ≡ c = ap (text_or c) (rw e at h) in
      (i, omega arith, sym same, rw same at e)
]

candidates : ℕ → ℕ → Str → List Str
candidates zero i label = []
candidates (suc f) i label = candidate i label ∷ candidates f (suc i) label

length-candidates : (f i : ℕ) (label : Str) → length (candidates f i label) ≡ f
unfolding candidates
length-candidates zero i label = refl
length-candidates (suc f) i label = ap suc (length-candidates f (suc i) label)

In-candidates :
    (f i : ℕ) (label c : Str)
    → In c (candidates f i label)
    → (k : ℕ) × (i ≤ k) × (c ≡ candidate k label)
unfolding candidates
In-candidates zero i label c m = absurd m
In-candidates (suc f) i label c (inl e) = (i, omega arith, e)
In-candidates (suc f) i label c (inr m) =
    let (k, h, e) = In-candidates f (suc i) label c m in (k, omega arith, e)

candidates-AllDistinct : (f i : ℕ) (label : Str) → AllDistinct (candidates f i label)
unfolding candidates
candidates-AllDistinct zero i label = tt
candidates-AllDistinct (suc f) i label = (
  (λ m.
      let (k, h, e) = In-candidates f (suc i) label (candidate i label) m in
      let same = candidate-injective i k label e in omega arith),
  candidates-AllDistinct f (suc i) label,
)

-- The loop gives up only where every candidate is taken.
unique_from-none :
    (f i : ℕ) (label : Str) (taken : List Str)
    → unique_from f i label taken ≡ none
    → (c : Str) → In c (candidates f i label)
    → In c taken
unfolding unique_from candidates
unique_from-none zero i label taken h c m = absurd m
unique_from-none (suc f) i label taken h c m = elim (Bool-cases (has (candidate i label) taken)) [
  | inl e ↦ elim m [
    | inl same ↦ rw same ((has_iff (candidate i label) taken).0 e)
    | inr r ↦ unique_from-none f (suc i) label taken (rw e at h) c r
  ]
  | inr e ↦ absurd (some_is_none (candidate i label) (rw e at h))
]

-- With one round more than there are labels, the loop returns.
unique_from-total :
    (i : ℕ) (label : Str) (taken : List Str)
    → (c : Str) × (unique_from (suc (length taken)) i label taken ≡ some c)
unique_from-total i label taken =
    elim (Option-cases (unique_from (suc (length taken)) i label taken)) [
      | inr (c, e) ↦ (c, e)
      | inl e ↦
          let small =
            pigeonhole (candidates (suc (length taken)) i label) taken
              (candidates-AllDistinct (suc (length taken)) i label)
              (unique_from-none (suc (length taken)) i label taken e) in
          absurd (omega (arith, length-candidates (suc (length taken)) i label))
    ]

-- A label is always found.
pub with_unique_label-total :
    (label : Str) (taken : List Str)
    → (new : Str) × (with_unique_label label taken ≡ some (new, new ∷ taken))
unfolding with_unique_label
with_unique_label-total label taken = elim (Bool-cases (has label taken)) [
  | inr e ↦ (label, rw e refl)
  | inl e ↦ let (c, found) = unique_from-total 2 label taken in (c, rw (e, found) refl)
]

-- While at most 64 labels are taken, a label of at most 64 bytes is made into one that is not taken
-- and has at most 64 bytes, within as many rounds as there are labels and one; it is itself where it
-- is not taken, and is taken afterwards.
pub with_unique_label_lem :
    (label : Str) (taken : List Str)
    → length label ≤ 64
    → length taken ≤ 64
    → (new : Str) × (with_unique_label label taken ≡ some (new, new ∷ taken))
      × (¬ (In new taken))
      × (length new ≤ 64)
      × (¬ (In label taken) → new ≡ label)
unfolding with_unique_label
with_unique_label_lem label taken short few = elim (Bool-cases (has label taken)) [
  | inr e ↦ (label, rw e refl, (λ m. cc (e, (has_iff label taken).1 m)), short, (λ h. refl))
  | inl e ↦
      let (c, found) = unique_from-total 2 label taken in
      let (k, small, same, new) = unique_from-some (suc (length taken)) 2 label taken c found in
      (
        c,
        rw (e, found) refl,
        (λ m. cc (new, (has_iff c taken).1 m)),
        rw same (length-candidate k label (omega arith)),
        (λ h. absurd (h ((has_iff label taken).0 e))),
      )
]
