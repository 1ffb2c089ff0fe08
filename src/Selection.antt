-- ===== src/Selection.antt =====
-- The benchmarks that are selected for comparison (pages/ResultsPage.tsx).
use bit_bench.Prelude.{
  ℕ, ◌≤◌, inl, inr, List, [], ◌∷◌, ◌++◌, not, Str, str_eq, has, has_iff, keep, length, ltb,
  if◌then◌else◌, In, AllDistinct, arith, Bool-cases, length-append, sym, In-append,
}

-- `next.delete(id)`
unfoldable pub delete : Str → List Str → List Str
delete id ids = keep (λ j. not (str_eq j id)) ids

-- A click on a benchmark's card: the set of selected identifiers, in the order of insertion.
unfoldable pub toggle : ℕ → Str → List Str → List Str
toggle max_compare id selected =
    if has id selected
    then delete id selected
    else (if ltb (length selected) max_compare then selected ++ id ∷ [] else selected)

-- A sequence of clicks, the first one first.
unfoldable pub toggle_all : ℕ → List Str → List Str → List Str
unfolding toggle
toggle_all max_compare [] selected = selected
toggle_all max_compare (id ∷ ids) selected =
    toggle_all max_compare ids (toggle max_compare id selected)

length-delete : (id : Str) (ids : List Str) → length (delete id ids) ≤ length ids
unfolding delete
length-delete id [] = omega arith
length-delete id (j ∷ ids) = ground (arith, length-delete id ids)

In-delete : (k id : Str) (ids : List Str) → In k (delete id ids) → In k ids
unfolding delete
In-delete k id [] h = h
In-delete k id (j ∷ ids) h = elim (Bool-cases (str_eq j id)) [
  | inl e ↦ inr (In-delete k id ids (rw e at h))
  | inr e ↦ elim (let h' : In k (j ∷ delete id ids) = rw e at h in h') [
    | inl p ↦ inl p
    | inr m ↦ inr (In-delete k id ids m)
  ]
]

delete-AllDistinct : (id : Str) (ids : List Str) → AllDistinct ids → AllDistinct (delete id ids)
unfolding delete
delete-AllDistinct id [] h = tt
delete-AllDistinct id (j ∷ ids) (new, h) = elim (Bool-cases (str_eq j id)) [
  | inl e ↦ rw e (delete-AllDistinct id ids h)
  | inr e ↦ rw e ((λ m. new (In-delete j id ids m)), delete-AllDistinct id ids h)
]

pub append-AllDistinct :
    (id : Str) (ids : List Str) → ¬ (In id ids) → AllDistinct ids → AllDistinct (ids ++ id ∷ [])
append-AllDistinct id [] new h = ((λ m. m), tt)
append-AllDistinct id (j ∷ ids) new (fresh, h) = (
  (λ m. elim (In-append j ids (id ∷ []) m) [
    | inl l ↦ fresh l
    | inr r ↦ elim r [ inl e ↦ new (inl (sym e)) | inr none_left ↦ none_left ]
  ]),
  append-AllDistinct id ids (λ m. new (inr m)) h,
)

-- No benchmark is selected twice, and at most `max_compare` are selected.
abbrev pub IsSelection : ℕ → List Str → Type 0
IsSelection max_compare ids = AllDistinct ids × (length ids ≤ max_compare)

toggle-IsSelection :
    (max_compare : ℕ) (id : Str) (ids : List Str)
    → IsSelection max_compare ids
    → IsSelection max_compare (toggle max_compare id ids)
unfolding toggle
toggle-IsSelection max_compare id ids (distinct, bound) = elim (Bool-cases (has id ids)) [
  | inl e ↦ rw e (delete-AllDistinct id ids distinct, omega (arith, length-delete id ids))
  | inr e ↦ elim (Bool-cases (ltb (length ids) max_compare)) [
    | inl room ↦
        let longer = length-append ids (id ∷ []) in
        rw (e, room)
          (
            append-AllDistinct id ids (λ m. cc (e, (has_iff id ids).1 m)) distinct,
            ground (arith, longer, room),
          )
    | inr full ↦ rw (e, full) (distinct, bound)
  ]
]

-- Whatever cards are clicked, no benchmark is selected twice, and at most the allowed number of
-- benchmarks is selected, if this held before.
pub toggle_all-IsSelection :
    (max_compare : ℕ) (ids selected : List Str)
    → IsSelection max_compare selected
    → IsSelection max_compare (toggle_all max_compare ids selected)
unfolding toggle_all
toggle_all-IsSelection max_compare [] selected h = h
toggle_all-IsSelection max_compare (id ∷ ids) selected h =
    toggle_all-IsSelection max_compare ids (toggle max_compare id selected)
      (toggle-IsSelection max_compare id selected h)
