-- ===== src/Instances/Invocation.antt =====
-- The identity of a built-in configuration tells its effective options, and no more.
use bit_bench.Prelude.{
  All-In, All-of_In, ◌≡◌, refl, ◌≢◌, inl, inr, some, List, [], ◌∷◌, ◌++◌, Str, codes, In, All,
  arith, true, false, Bool-cases, ap₂, sym, ◌∙◌, has, if◌then◌else◌, append_assoc, ◌↔◌,
  sort-AllDistinct, In-sort, str_lt, join, length, ltb, AllDistinct, In-append,
}
use bit_bench.Prelude.Delimiters.{delimiter_split, IsPart, join-injective, delimiter_absent}
use bit_bench.Objects.{Object, get, keys, IsObject}
use bit_bench.Objects.Laws.{get_of_In, In-keys_of_get, All-get, entries_found}
use bit_bench.Options.{
  Numeric, Value, undefined, null, bool, num, str, OptionType, number, boolean, select,
  CompressorOption, Schema, Values, read,
}
use bit_bench.Instances.{
  native_options, show, invocation_parts, invocation_base, build_invocation, sorted_keys,
}
use bit_bench.Instances.Parts.{
  FitsType, effective, part, part-some, In-invocation_parts, native_key_plain, no_unit,
}
use bit_bench.Instances.Identity.{
  invocation_parts-injective, invocation_parts-same, part-effective_iff,
}

-- An entry: the base, and behind "=" the parts, if there are any.
abbrev entry : Str → List Str → Str
entry base [] = base
entry base (p ∷ ps) = base ++ codes "=" ++ join (codes ";") (p ∷ ps)

entry_lem :
    (base : Str) (ps : List Str)
    → (if ltb 0 (length ps) then base ++ codes "=" ++ join (codes ";") ps else base) ≡ entry base ps
entry_lem base [] = ground arith
entry_lem base (p ∷ ps) = ground arith

entry-injective :
    (b b' : Str) (ps ps' : List Str)
    → ¬ (In b'=' b)
    → ¬ (In b'=' b')
    → All (IsPart b';') ps
    → All (IsPart b';') ps'
    → entry b ps ≡ entry b' ps'
    → (b ≡ b') × (ps ≡ ps')
entry-injective b b' [] [] h h' a a' e = (e, refl)
entry-injective b b' [] (q ∷ ps') h h' a a' e =
    absurd (
      delimiter_absent b'=' b b' _ h (e ∙ append_assoc b' (codes "=") (join (codes ";") (q ∷ ps'))))
entry-injective b b' (p ∷ ps) [] h h' a a' e = absurd (
    delimiter_absent b'=' b' b _ h'
      (sym e ∙ append_assoc b (codes "=") (join (codes ";") (p ∷ ps))))
entry-injective b b' (p ∷ ps) (q ∷ ps') h h' a a' e =
    let (same, joined) = delimiter_split b'=' b b' _ _ h h' (
      sym (append_assoc b (codes "=") (join (codes ";") (p ∷ ps)))
      ∙ e
      ∙ append_assoc b' (codes "=") (join (codes ";") (q ∷ ps'))) in
    (same, join-injective b';' (p ∷ ps) (q ∷ ps') a a' joined)

All-of_entries :
    {A : Type 0} (all o : Object A) (P : Str × A → Type 0)
    → ((e : Str × A) → get e.0 all ≡ some e.1 → P e)
    → All (λ e. get e.0 all ≡ some e.1) o
    → All P o
All-of_entries all [] P f h = tt
All-of_entries all (e ∷ o) P f (found, h) = (f e found, All-of_entries all o P f h)

part_ne_nil : (k s : Str) → k ++ b':' ∷ s ≢ []
part_ne_nil [] s e = cc
part_ne_nil (c ∷ k) s e = cc

module _ {Num : Type 0} ⦃n : Numeric Num⦄ where
  show_plain : (t : OptionType) (v : Value Num) → FitsType t v → ¬ (In b';' (show v))
  unfolding show
  show_plain t undefined f = no_unit b';' (codes "undefined") refl
  show_plain t null f = no_unit b';' (codes "null") refl
  show_plain t (bool true) f = no_unit b';' (codes "true") refl
  show_plain t (bool false) f = no_unit b';' (codes "false") refl
  show_plain t (num a) f = n.to_string_plain a
  show_plain select (str s) f = f
  show_plain number (str s) f = absurd f
  show_plain boolean (str s) f = absurd f

  -- The native options fit their types.
  abbrev pub FitsSchema : Schema Num → Values Num → Type 0
  FitsSchema schema options =
      All (λ e. has e.0 native_options ≡ true → FitsType e.1.type (read e.0 options)) schema

  -- Every native option of the schema has the same effective value.
  abbrev pub SameEffective : Schema Num → Values Num → Values Num → Type 0
  SameEffective schema o o' =
      All
        (λ e.
          has e.0 native_options ≡ true → effective e.1 (read e.0 o) ≡ effective e.1 (read e.0 o'))
        schema

  part_same :
      (k : Str) (schema : Schema Num) (o o' : Values Num)
      → (has k native_options ≡ true → part k schema o ≡ part k schema o')
      → part k schema o ≡ part k schema o'
  unfolding part
  part_same k schema o o' f = elim (Bool-cases (has k native_options)) [
    | inl native ↦ f native
    | inr other ↦ rw other
  ]

  module _ (schema : Schema Num) (object : IsObject schema) where
    In-sorted_keys : (k : Str) → In k (sorted_keys schema) ↔ In k (keys schema)
    unfolding sorted_keys
    In-sorted_keys k = In-sort str_lt k (keys schema)

    distinct_keys : AllDistinct (sorted_keys schema)
    unfolding sorted_keys
    distinct_keys = sort-AllDistinct str_lt (keys schema) object

    fits_of_get :
        (o : Values Num) (k : Str) (opt : CompressorOption Num)
        → FitsSchema schema o
        → has k native_options ≡ true
        → get k schema ≡ some opt
        → FitsType opt.type (read k o)
    fits_of_get o k opt fits native found =
        All-get (λ e. has e.0 native_options ≡ true → FitsType e.1.type (read e.0 o)) k schema opt
          fits found native

    parts_IsPart :
        (o : Values Num)
        → FitsSchema schema o
        → All (IsPart b';') (invocation_parts (sorted_keys schema) schema o)
    parts_IsPart o fits = All-of_In _ _ λ p m.
        let (key, at, made) = In-invocation_parts (sorted_keys schema) schema o p m in
        let (native, shape) = part-some key schema o p made in
        let (opt, found) = get_of_In key schema ((In-sorted_keys key).0 at) in
        let value = show_plain opt.type (read key o) (fits_of_get o key opt fits native found) in
        rw shape (
          part_ne_nil key _,
          (λ c. elim (In-append _ key _ c) [
            | inl k ↦ (native_key_plain key native).1 k
            | inr v ↦ elim v [ inl e ↦ absurd (omega arith) | inr w ↦ value w ]
          ]),
        )

    -- For each key of the schema, the parts agree exactly when the effective values do.
    parts_SameEffective :
        (o o' : Values Num)
        → FitsSchema schema o
        → FitsSchema schema o'
        → All (λ k. part k schema o ≡ part k schema o') (sorted_keys schema)
        → SameEffective schema o o'
    parts_SameEffective o o' fits fits' same =
        All-of_entries schema schema _
          (λ e found native.
            (part-effective_iff schema o o' e.0 e.1 native found
                (fits_of_get o e.0 e.1 fits native found)
                (fits_of_get o' e.0 e.1 fits' native found)).0
              (All-In _ _ e.0 same ((In-sorted_keys e.0).1 (In-keys_of_get e.0 schema e.1 found))))
          (entries_found schema schema object (λ k m. refl))

    SameEffective-parts :
        (o o' : Values Num)
        → FitsSchema schema o
        → FitsSchema schema o'
        → SameEffective schema o o'
        → All (λ k. part k schema o ≡ part k schema o') (sorted_keys schema)
    SameEffective-parts o o' fits fits' same = All-of_In _ _ λ k at.
        let (opt, found) = get_of_In k schema ((In-sorted_keys k).0 at) in
        part_same k schema o o' (λ native.
          (part-effective_iff schema o o' k opt native found (fits_of_get o k opt fits native found)
              (fits_of_get o' k opt fits' native found)).1
            (All-get _ k schema opt same found native))

    -- Two configurations of a built-in compressor whose options fit their types have the same
    -- invocation exactly when their entry names are equal and every native option of the schema
    -- has the same effective value, provided that no
    -- entry name holds "=" and the schema holds each key once.
    pub build_invocation-eq_iff :
        (name : Str) (o o' : Values Num)
        → FitsSchema schema o
        → FitsSchema schema o'
        → ¬ (In b'=' (invocation_base name o))
        → ¬ (In b'=' (invocation_base name o'))
        → (build_invocation name schema o ≡ build_invocation name schema o')
          ↔ ((invocation_base name o ≡ invocation_base name o') × SameEffective schema o o')
    unfolding build_invocation
    build_invocation-eq_iff name o o' fits fits' plain plain' =
        let ks = sorted_keys schema in
        (
          (λ e.
              let (same, parts) =
                entry-injective _ _ _ _ plain plain' (parts_IsPart o fits) (parts_IsPart o' fits') (
                  sym (entry_lem (invocation_base name o) (invocation_parts ks schema o))
                  ∙ e
                  ∙ entry_lem (invocation_base name o') (invocation_parts ks schema o')) in
              (
                same,
                parts_SameEffective o o' fits fits'
                    (invocation_parts-injective ks schema o o' distinct_keys parts),
              )),
          (λ h.
              ap₂ (λ b ps. if ltb 0 (length ps) then b ++ codes "=" ++ join (codes ";") ps else b)
                h.0
                (invocation_parts-same ks schema o o' (SameEffective-parts o o' fits fits' h.1))),
        )
