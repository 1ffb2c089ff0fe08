-- ===== src/Instances/Parts.antt =====
-- The parts of an invocation: one for each native option whose effective value is not the default.
use bit_bench.Prelude.{
  ◌≡◌, refl, ◌≢◌, ◌⊎◌, inl, inr, Option, none, some, List, [], ◌∷◌, ◌++◌, ℕ, Str, codes, In, arith,
  true, false, not, Bool-cases, ap, sym, ◌∙◌, has, str_eq, str_eq_iff, ◌==◌, if◌then◌else◌, any,
  append_assoc,
}
use bit_bench.Objects.{get}
use bit_bench.Options.{
  Numeric, Value, undefined, bool, num, str, OptionType, number, boolean, select, CompressorOption,
  Schema, Values, read, or_default,
}
use bit_bench.Instances.{native_options, show, is_default, invocation_parts}

-- The value fits the type of its option, or is missing; a selected text holds no ";".
abbrev pub FitsType : {Num : Type 0} → OptionType → Value Num → Type 0
FitsType type undefined = Unit {0}
FitsType number (num a) = Unit {0}
FitsType boolean (bool b) = Unit {0}
FitsType select (str s) = ¬ (In b';' s)
FitsType _ _ = ⊥

-- The value that the native harness works with: a missing option has its default.
abbrev pub effective : {Num : Type 0} → CompressorOption Num → Value Num → Value Num
effective opt v = or_default v opt.initial

abbrev pub cons_some : Option Str → List Str → List Str
cons_some none ps = ps
cons_some (some p) ps = p ∷ ps

In-cons_some :
    (p : Str) (o : Option Str) (ps : List Str) → In p (cons_some o ps) → (o ≡ some p) ⊎ In p ps
In-cons_some p none ps h = inr h
In-cons_some p (some q) ps (inl e) = inl (ap some (sym e))
In-cons_some p (some q) ps (inr h) = inr h

-- The text of an option, or another one.
abbrev pub unwrap : Str → Option Str → Str
unwrap d none = d
unwrap d (some p) = p

module _ {Num : Type 0} ⦃n : Numeric Num⦄ where
  pub show-FitsType_injective :
      (t : OptionType) (v w : Value Num)
      → FitsType t v
      → FitsType t w
      → v ≢ undefined
      → w ≢ undefined
      → show v ≡ show w
      → v ≡ w
  unfolding show
  show-FitsType_injective number (num a) (num b) fv fw nv nw e = ap num (n.to_string_inj a b e)
  show-FitsType_injective boolean (bool true) (bool true) fv fw nv nw e = refl
  show-FitsType_injective boolean (bool true) (bool false) fv fw nv nw e = cc
  show-FitsType_injective boolean (bool false) (bool true) fv fw nv nw e = cc
  show-FitsType_injective boolean (bool false) (bool false) fv fw nv nw e = refl
  show-FitsType_injective select (str s) (str t) fv fw nv nw e = ap str e
  show-FitsType_injective _ _ _ fv fw nv nw e = ground arith

  -- The part that one key contributes.
  unfoldable pub part : Str → Schema Num → Values Num → Option Str
  part key schema options =
      if not (has key native_options)
      then none
      else (if is_default (read key options) (get key schema)
          then none
          else some (key ++ codes ":" ++ show (read key options)))

  pub invocation_parts-cons :
      (key : Str) (rest : List Str) (schema : Schema Num) (options : Values Num)
      → invocation_parts (key ∷ rest) schema options
        ≡ cons_some (part key schema options) (invocation_parts rest schema options)
  unfolding invocation_parts part
  invocation_parts-cons key rest schema options = elim (Bool-cases (has key native_options)) [
    | inl e ↦ elim (Bool-cases (is_default (read key options) (get key schema))) [
      | inl d ↦ rw (e, d)
      | inr d ↦ rw (e, d)
    ]
    | inr e ↦ rw e
  ]

  -- A part is a native key, a colon and the shown value.
  pub part-some :
      (key : Str) (schema : Schema Num) (options : Values Num) (p : Str)
      → part key schema options ≡ some p
      → (has key native_options ≡ true) × (p ≡ key ++ b':' ∷ show (read key options))
  unfolding part
  part-some key schema options p h = elim (Bool-cases (has key native_options)) [
    | inl e ↦ elim (Bool-cases (is_default (read key options) (get key schema))) [
      | inl d ↦ cc (let h' : none ≡ some p = rw (e, d) at h in h')
      | inr d ↦ (
        e,
        sym (
              let h' : some (key ++ codes ":" ++ show (read key options)) ≡ some p =
                rw (e, d) at h in
              ap (unwrap p) h')
            ∙ append_assoc key (codes ":") (show (read key options)),
      )
    ]
    | inr e ↦ cc (let h' : none ≡ some p = rw e at h in h')
  ]

  -- Every part comes from one of the keys.
  pub In-invocation_parts :
      (ks : List Str) (schema : Schema Num) (options : Values Num) (p : Str)
      → In p (invocation_parts ks schema options)
      → (key : Str) × In key ks × (part key schema options ≡ some p)
  In-invocation_parts [] schema options p h = absurd (let m : ⊥ = unfold invocation_parts in h in m)
  In-invocation_parts (key ∷ ks) schema options p h =
      elim (In-cons_some p (part key schema options) _
        (rw (invocation_parts-cons key ks schema options) at h)) [
          | inl e ↦ (key, inl refl, e)
          | inr m ↦ let (k, at, q) = In-invocation_parts ks schema options p m in (k, inr at, q)
        ]

pub no_unit : (c : ℕ) (s : Str) → any (λ d. c == d) s ≡ false → ¬ (In c s)
no_unit c [] e m = m
no_unit c (d ∷ s) e (inl p) = ground arith
no_unit c (d ∷ s) e (inr m) = ground (arith, no_unit c s (ground arith) m)

key_lacks :
    (c : ℕ) (key : Str) (ks : List Str)
    → any (λ k. any (λ d. c == d) k) ks ≡ false
    → has key ks ≡ true
    → ¬ (In c key)
unfolding has
key_lacks c key [] e h = cc
key_lacks c key (k ∷ ks) e h = elim (Bool-cases (str_eq key k)) [
  | inl same ↦ rw ((str_eq_iff key k).0 same) (no_unit c k (ground arith))
  | inr other ↦ key_lacks c key ks (ground arith) (rw other at h)
]

-- The names of the native options hold neither a colon nor a semicolon.
pub native_key_plain :
    (key : Str) → has key native_options ≡ true → (¬ (In b':' key)) × (¬ (In b';' key))
unfolding native_options
native_key_plain key h = (key_lacks b':' key _ refl h, key_lacks b';' key _ refl h)
