-- ===== src/Picker/Laws.antt =====
-- Which compressors the picker shows.
use bit_bench.Prelude.{
  In-keep, suc, ◌≡◌, refl, sym, ap, ◌∙◌, ◌↔◌, ◌⊎◌, inl, inr, List, [], ◌∷◌, ◌++◌, Bool, true, false,
  not, ◌&&◌, Str, str_lt, has, has_iff, if◌then◌else◌, keep, length, ltb, to_lower, trim, sort, In,
  In-sort, In-append, Bool-cases, arith,
}
use bit_bench.Objects.{keys}
use bit_bench.Instances.{Registry}
use bit_bench.Picker.{
  CompressorFamily, families, names_of, custom_names, matches, grids, with_custom, picker_families,
}

In-append_left : (c : Str) (xs ys : List Str) → In c xs → In c (xs ++ ys)
In-append_left c (x ∷ xs) ys (inl e) = inl e
In-append_left c (x ∷ xs) ys (inr m) = inr (In-append_left c xs ys m)
In-append_left c [] ys m = elim m [ ]

In-append_right : (c : Str) (xs ys : List Str) → In c ys → In c (xs ++ ys)
In-append_right c [] ys m = m
In-append_right c (x ∷ xs) ys m = inr (In-append_right c xs ys m)

In-append_iff : (c : Str) (xs ys : List Str) → In c (xs ++ ys) ↔ (In c xs ⊎ In c ys)
In-append_iff c xs ys = (
  In-append c xs ys,
  λ m. elim m [ inl l ↦ In-append_left c xs ys l | inr r ↦ In-append_right c xs ys r ],
)

keep-append : (p : Str → Bool) (xs ys : List Str) → keep p (xs ++ ys) ≡ keep p xs ++ keep p ys
keep-append p [] ys = refl
keep-append p (x ∷ xs) ys = elim (Bool-cases (p x)) [
  | inl e ↦ rw (e, keep-append p xs ys) refl
  | inr e ↦ rw (e, keep-append p xs ys) refl
]

names_of_non_empty :
    (f : CompressorFamily) (here : List Str) (fs : List CompressorFamily)
    → names_of (if ltb 0 (length here) then record f { compressors = here } ∷ fs else fs)
      ≡ here ++ names_of fs
unfolding names_of
names_of_non_empty f [] fs = refl
names_of_non_empty f (c ∷ here) fs =
    let positive : ltb 0 (suc (length here)) ≡ true = ground arith in rw positive refl

names_of-grids :
    (shown : Str → Bool) (fs : List CompressorFamily)
    → names_of (grids shown fs) ≡ keep shown (names_of fs)
unfolding names_of grids
names_of-grids shown [] = refl
names_of-grids shown (f ∷ fs) =
    names_of_non_empty f (keep shown f.compressors) (grids shown fs)
    ∙ ap (λ l. keep shown f.compressors ++ l) (names_of-grids shown fs)
    ∙ sym (keep-append shown f.compressors (names_of fs))

names_of-with_custom :
    (custom : List Str) (fs : List CompressorFamily)
    → names_of (with_custom custom fs) ≡ custom ++ names_of fs
unfolding with_custom names_of
names_of-with_custom [] fs = refl
names_of-with_custom (c ∷ custom) fs =
    let positive : ltb 0 (suc (length custom)) ≡ true = ground arith in rw positive refl

-- The names shown in the picker.
abbrev pub picker_names : {Num : Type 0} → Registry Num → Str → List Str
picker_names registry search_text = names_of (picker_families registry search_text)

picker_names_eq :
    {Num : Type 0} (registry : Registry Num) (search_text : Str)
    → picker_names registry search_text
      ≡ sort str_lt (keep (matches (to_lower (trim search_text))) (custom_names registry))
        ++ keep
            (λ c. has c (keys registry) && matches (to_lower (trim search_text)) c)
            (names_of families)
unfolding picker_families
picker_names_eq registry search_text =
    let query = to_lower (trim search_text) in
    let shown : Str → Bool = λ c. has c (keys registry) && matches query c in
    names_of-with_custom (sort str_lt (keep (matches query) (custom_names registry)))
      (grids shown families)
    ∙ ap (λ l. sort str_lt (keep (matches query) (custom_names registry)) ++ l)
        (names_of-grids shown families)

In-custom_names :
    {Num : Type 0} (registry : Registry Num) (c : Str)
    → In c (custom_names registry) ↔ (In c (keys registry) × (has c (names_of families) ≡ false))
unfolding custom_names
In-custom_names registry c =
    ground (arith, In-keep (λ d. not (has d (names_of families))) c (keys registry))

-- The picker shows a compressor exactly when it is in the registry and its name, in lower case,
-- holds the search text, trimmed and in lower case.
pub In-picker_families :
    {Num : Type 0} (registry : Registry Num) (search_text c : Str)
    → In c (names_of (picker_families registry search_text))
      ↔ (In c (keys registry) × (matches (to_lower (trim search_text)) c ≡ true))
In-picker_families registry search_text c =
    let query = to_lower (trim search_text) in
    let custom = keep (matches query) (custom_names registry) in
    let shown : Str → Bool = λ d. has d (keys registry) && matches query d in
    let split : In c (picker_names registry search_text)
        ↔ (In c (sort str_lt custom) ⊎ In c (keep shown (names_of families))) =
      rw (picker_names_eq registry search_text)
        (In-append_iff c (sort str_lt custom) (keep shown (names_of families))) in
    ground (
      arith,
      split,
      In-sort str_lt c custom,
      In-keep (matches query) c (custom_names registry),
      In-custom_names registry c,
      In-keep shown c (names_of families),
      has_iff c (keys registry),
      has_iff c (names_of families),
    )
