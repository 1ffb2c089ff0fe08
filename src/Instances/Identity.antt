-- ===== src/Instances/Identity.antt =====
-- When two configurations of a built-in compressor have the same invocation.
use bit_bench.Prelude.{
  ◌≡◌, refl, ◌≢◌, ◌⊎◌, inl, inr, Option, none, some, List, [], ◌∷◌, ◌++◌, Str, codes, In, All, true,
  false, Bool-cases, ap, ap₂, sym, ◌∙◌, has, AllDistinct, append_assoc, ◌↔◌,
}
use bit_bench.Prelude.Delimiters.{delimiter_split}
use bit_bench.Objects.{get}
use bit_bench.Options.{
  Numeric, Value, undefined, null, bool, num, str, OptionType, number, boolean, select,
  CompressorOption, Schema, Values, read, or_default,
}
use bit_bench.Options.Laws.{value_eq_iff}
use bit_bench.Instances.{native_options, show, is_default, invocation_parts}
use bit_bench.Instances.Parts.{
  FitsType, effective, show-FitsType_injective, part, cons_some, invocation_parts-cons, part-some,
  In-invocation_parts, native_key_plain, unwrap,
}

cons_some-injective :
    (o o' : Option Str) (ps ps' : List Str)
    → ((p : Str) → o ≡ some p → ¬ (In p ps'))
    → ((p : Str) → o' ≡ some p → ¬ (In p ps))
    → cons_some o ps ≡ cons_some o' ps'
    → (o ≡ o') × (ps ≡ ps')
cons_some-injective none none ps ps' h h' e = (refl, e)
cons_some-injective (some p) (some q) ps ps' h h' e = (cc, cc)
cons_some-injective none (some q) ps ps' h h' e = absurd (h' q refl (rw e (inl refl)))
cons_some-injective (some p) none ps ps' h h' e = absurd (h p refl (rw (← e) (inl refl)))

null_fits_nothing : (Num : Type 0) (t : OptionType) → FitsType {Num = Num} t null → ⊥
null_fits_nothing Num number f = f
null_fits_nothing Num boolean f = f
null_fits_nothing Num select f = f

module _ {Num : Type 0} ⦃n : Numeric Num⦄ where
  -- A part tells its key.
  part-key :
      (j k : Str) (schema schema' : Schema Num) (o o' : Values Num) (p : Str)
      → part j schema o ≡ some p
      → part k schema' o' ≡ some p
      → j ≡ k
  part-key j k schema schema' o o' p e e' =
      let (nj, pj) = part-some j schema o p e in
      let (nk, pk) = part-some k schema' o' p e' in
      (delimiter_split b':' j k _ _ (native_key_plain j nj).0 (native_key_plain k nk).0
        (sym pj ∙ pk)).0

  pub invocation_parts-injective :
      (ks : List Str) (schema : Schema Num) (o o' : Values Num)
      → AllDistinct ks
      → invocation_parts ks schema o ≡ invocation_parts ks schema o'
      → All (λ k. part k schema o ≡ part k schema o') ks
  invocation_parts-injective [] schema o o' d e = tt
  invocation_parts-injective (k ∷ ks) schema o o' (new, d) e =
      let (same, rest) =
        cons_some-injective (part k schema o) (part k schema o') _ _
          (λ p q m.
            let (j, at, r) = In-invocation_parts ks schema o' p m in
            new (rw (part-key k j schema schema o o' p q r) at))
          (λ p q m.
            let (j, at, r) = In-invocation_parts ks schema o p m in
            new (rw (part-key k j schema schema o' o p q r) at))
          (sym (invocation_parts-cons k ks schema o) ∙ e ∙ invocation_parts-cons k ks schema o') in
      (same, invocation_parts-injective ks schema o o' d rest)

  pub invocation_parts-same :
      (ks : List Str) (schema : Schema Num) (o o' : Values Num)
      → All (λ k. part k schema o ≡ part k schema o') ks
      → invocation_parts ks schema o ≡ invocation_parts ks schema o'
  invocation_parts-same [] schema o o' h = unfold invocation_parts in refl
  invocation_parts-same (k ∷ ks) schema o o' (e, h) =
      invocation_parts-cons k ks schema o
      ∙ ap₂ cons_some e (invocation_parts-same ks schema o o' h)
      ∙ sym (invocation_parts-cons k ks schema o')

  default_effective :
      (v : Value Num) (opt : CompressorOption Num)
      → is_default v (some opt) ≡ true
      → effective opt v ≡ opt.initial
  unfolding is_default or_default
  default_effective undefined opt h = refl
  default_effective null opt h = refl
  default_effective (bool b) opt h = (value_eq_iff (bool b) opt.initial).0 h
  default_effective (num a) opt h = (value_eq_iff (num a) opt.initial).0 h
  default_effective (str s) opt h = (value_eq_iff (str s) opt.initial).0 h

  -- A value that fits its type and is not the default stands for itself.
  changed_effective :
      (v : Value Num) (opt : CompressorOption Num)
      → FitsType opt.type v
      → is_default v (some opt) ≡ false
      → (v ≢ undefined) × (effective opt v ≡ v) × (v ≢ opt.initial)
  unfolding is_default or_default
  changed_effective undefined opt f h = cc
  changed_effective null opt f h = absurd (null_fits_nothing Num opt.type f)
  changed_effective (bool b) opt f h =
      ((λ e. cc), refl, (λ e. cc (h, (value_eq_iff (bool b) opt.initial).1 e)))
  changed_effective (num a) opt f h =
      ((λ e. cc), refl, (λ e. cc (h, (value_eq_iff (num a) opt.initial).1 e)))
  changed_effective (str s) opt f h =
      ((λ e. cc), refl, (λ e. cc (h, (value_eq_iff (str s) opt.initial).1 e)))

module _ {Num : Type 0} ⦃n : Numeric Num⦄ (schema : Schema Num) (o o' : Values Num) (k : Str)
    (opt : CompressorOption Num) (native : has k native_options ≡ true)
    (found : get k schema ≡ some opt) (fits : FitsType opt.type (read k o))
    (fits' : FitsType opt.type (read k o')) where
  part_default : (v : Values Num) → is_default (read k v) (some opt) ≡ true → part k schema v ≡ none
  unfolding part
  part_default v d = rw (native, found, d)

  part_changed :
      (v : Values Num)
      → is_default (read k v) (some opt) ≡ false
      → part k schema v ≡ some (k ++ codes ":" ++ show (read k v))
  unfolding part
  part_changed v d = rw (native, found, d)

  shown :
      some (k ++ codes ":" ++ show (read k o)) ≡ some (k ++ codes ":" ++ show (read k o'))
      → show (read k o) ≡ show (read k o')
  shown p =
      let plain = (native_key_plain k native).0 in
      (delimiter_split b':' k k _ _ plain plain (
        sym (append_assoc k (codes ":") (show (read k o)))
        ∙ ap (unwrap []) p
        ∙ append_assoc k (codes ":") (show (read k o')))).1

  -- The parts of one key agree exactly when its effective values do.
  pub part-effective_iff :
      (part k schema o ≡ part k schema o') ↔ (effective opt (read k o) ≡ effective opt (read k o'))
  part-effective_iff = elim (Bool-cases (is_default (read k o) (some opt))) [
    | inl d ↦ elim (Bool-cases (is_default (read k o') (some opt))) [
      | inl d' ↦ (
        (λ e. default_effective _ opt d ∙ sym (default_effective _ opt d')),
        (λ e. part_default o d ∙ sym (part_default o' d')),
      )
      | inr d' ↦
          let (_, e', ne) = changed_effective (read k o') opt fits' d' in
          (
            (λ e. cc (part_default o d, part_changed o' d')),
            (λ e. absurd (ne (sym e' ∙ sym e ∙ default_effective _ opt d))),
          )
    ]
    | inr d ↦
        let (nu, e, ne) = changed_effective (read k o) opt fits d in
        elim (Bool-cases (is_default (read k o') (some opt))) [
          | inl d' ↦ (
            (λ p. cc (part_changed o d, part_default o' d')),
            (λ p. absurd (ne (sym e ∙ p ∙ default_effective _ opt d'))),
          )
          | inr d' ↦
              let (nu', e', ne') = changed_effective (read k o') opt fits' d' in
              (
                (λ p.
                    e
                    ∙ show-FitsType_injective opt.type _ _ fits fits' nu nu'
                        (shown (sym (part_changed o d) ∙ p ∙ part_changed o' d'))
                    ∙ sym e'),
                (λ p.
                    part_changed o d
                    ∙ ap (λ v. some (k ++ codes ":" ++ show v)) (sym e ∙ p ∙ e')
                    ∙ sym (part_changed o' d')),
              )
        ]
  ]

-- Values with the same effect are both the default, or are one value.
pub same_effect :
    {Num : Type 0} ⦃n : Numeric Num⦄ (v w : Value Num) (opt : CompressorOption Num)
    → FitsType opt.type v
    → FitsType opt.type w
    → effective opt v ≡ effective opt w
    → ((is_default v (some opt) ≡ true) × (is_default w (some opt) ≡ true))
      ⊎ ((is_default v (some opt) ≡ false) × (is_default w (some opt) ≡ false) × (v ≡ w))
same_effect v w opt fv fw e = elim (Bool-cases (is_default v (some opt))) [
  | inl d ↦ elim (Bool-cases (is_default w (some opt))) [
    | inl d' ↦ inl (d, d')
    | inr d' ↦
        let (_, e', ne) = changed_effective w opt fw d' in
        absurd (ne (sym e' ∙ sym e ∙ default_effective v opt d))
  ]
  | inr d ↦
      let (_, ev, ne) = changed_effective v opt fv d in
      elim (Bool-cases (is_default w (some opt))) [
        | inl d' ↦ absurd (ne (sym ev ∙ e ∙ default_effective w opt d'))
        | inr d' ↦ let (_, e', _) = changed_effective w opt fw d' in inr (d, d', sym ev ∙ e ∙ e')
      ]
]
