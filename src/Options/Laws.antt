-- ===== src/Options/Laws.antt =====
-- Canonical options: every key of the schema, with the provided value or the default.
use bit_bench.Prelude.{
  ◌≡◌, refl, ◌↔◌, inl, inr, Option, none, some, [], ◌∷◌, true, false, Str, str_eq, str_eq_iff,
  arith, Bool-cases, ap, ◌∙◌, All,
}
use bit_bench.Objects.{get, put, IsObject}
use bit_bench.Objects.Laws.{get-put, get-none, entries_found, put-IsObject}
use bit_bench.Options.{
  Numeric, Value, undefined, null, bool, num, str, CompressorOption, Schema, Values, read, value_eq,
  default_from, default_options, or_default, canonical_from, canonical_options,
}

module _ {Num : Type 0} where
  pub value_eq_iff : ⦃n : Numeric Num⦄ (v w : Value Num) → (value_eq v w ≡ true) ↔ (v ≡ w)
  unfolding value_eq
  value_eq_iff ⦃n⦄ (num a) (num b) = ground (arith, n.num_eq_iff a b)
  value_eq_iff (str s) (str t) = ground (arith, str_eq_iff s t)
  value_eq_iff (bool true) (bool b) = ground arith
  value_eq_iff (bool false) (bool b) = ground arith
  value_eq_iff undefined w = ground arith
  value_eq_iff null w = ground arith
  value_eq_iff _ _ = ground arith

  -- What one entry of the schema makes of the provided value.
  abbrev pub chosen : Option (CompressorOption Num) → Value Num → Option (Value Num)
  chosen none v = none
  chosen (some opt) v = some (or_default v opt.initial)

  abbrev or_else : Option (Value Num) → Option (Value Num) → Option (Value Num)
  or_else none d = d
  or_else (some v) d = some v

  get-canonical_from :
      (schema : Schema Num) (done provided : Values Num) (k : Str)
      → IsObject schema
      → get k (canonical_from done schema provided)
        ≡ or_else (chosen (get k schema) (read k provided)) (get k done)
  unfolding canonical_from get
  get-canonical_from [] done provided k h = refl
  get-canonical_from ((key, opt) ∷ rest) done provided k (new, h) =
      let value = or_default (read key provided) opt.initial in
      let ih = get-canonical_from rest (put key value done) provided k h in
      elim (Bool-cases (str_eq k key)) [
        | inl e ↦
            let same = (str_eq_iff k key).0 e in
            rw e (
              ih
              ∙ rw (get-put k key value done, e, get-none k rest (λ m. new (rw same at m)))
                  (rw same refl))
        | inr e ↦ rw e (rw (get-put k key value done, e) at ih)
      ]

  or_else-none : (o : Option (Value Num)) → or_else o none ≡ o
  or_else-none none = refl
  or_else-none (some v) = refl

  pub get-canonical_options-chosen :
      (schema : Schema Num) (provided : Values Num) (k : Str)
      → IsObject schema
      → get k (canonical_options schema provided) ≡ chosen (get k schema) (read k provided)
  unfolding canonical_options get
  get-canonical_options-chosen schema provided k h =
      get-canonical_from schema [] provided k h ∙ or_else-none _

  -- The provided value, or the default where that is missing, `undefined` or `null`; nothing for a
  -- key that is not in the schema.
  abbrev pub expected : Option (CompressorOption Num) → Value Num → Option (Value Num)
  expected none v = none
  expected (some opt) undefined = some opt.initial
  expected (some opt) null = some opt.initial
  expected (some opt) (bool b) = some (bool b)
  expected (some opt) (num a) = some (num a)
  expected (some opt) (str s) = some (str s)

  chosen-expected :
      (opt : Option (CompressorOption Num)) (v : Value Num) → chosen opt v ≡ expected opt v
  unfolding or_default
  chosen-expected none v = refl
  chosen-expected (some opt) undefined = refl
  chosen-expected (some opt) null = refl
  chosen-expected (some opt) (bool b) = refl
  chosen-expected (some opt) (num a) = refl
  chosen-expected (some opt) (str s) = refl

  -- If a schema holds each key once, reading a key of its canonical options gives the provided value, or the default
  -- where that is missing, `undefined` or `null`; a key that is not in the schema is dropped.
  pub get-canonical_options :
      (schema : Schema Num) (provided : Values Num) (k : Str)
      → IsObject schema
      → get k (canonical_options schema provided) ≡ expected (get k schema) (read k provided)
  get-canonical_options schema provided k h =
      get-canonical_options-chosen schema provided k h
      ∙ chosen-expected (get k schema) (read k provided)

  pub read_of_get : (k : Str) (o : Values Num) (v : Value Num) → get k o ≡ some v → read k o ≡ v
  unfolding read
  read_of_get k o v h = rw (h, read)

  canonical_from-same :
      (schema : Schema Num) (done p q : Values Num)
      → All (λ e. or_default (read e.0 p) e.1.initial ≡ or_default (read e.0 q) e.1.initial) schema
      → canonical_from done schema p ≡ canonical_from done schema q
  unfolding canonical_from
  canonical_from-same [] done p q h = refl
  canonical_from-same ((key, opt) ∷ rest) done p q (e, h) =
      rw e (canonical_from-same rest (put key (or_default (read key q) opt.initial) done) p q h)

  or_default_idempotent : (v d : Value Num) → or_default (or_default v d) d ≡ or_default v d
  unfolding or_default
  or_default_idempotent undefined undefined = refl
  or_default_idempotent undefined null = refl
  or_default_idempotent undefined _ = refl
  or_default_idempotent null undefined = refl
  or_default_idempotent null null = refl
  or_default_idempotent null _ = refl
  or_default_idempotent _ d = refl

  read_again :
      (schema : Schema Num) (provided : Values Num) (entries : Schema Num)
      → IsObject schema
      → All (λ e. get e.0 schema ≡ some e.1) entries
      → All
          (λ e.
            or_default (read e.0 (canonical_options schema provided)) e.1.initial
            ≡ or_default (read e.0 provided) e.1.initial)
          entries
  read_again schema provided [] h found = tt
  read_again schema provided ((k, opt) ∷ rest) h (here, found) = (
    rw
        (read_of_get k _ (or_default (read k provided) opt.initial) (
          get-canonical_options-chosen schema provided k h
          ∙ ap (λ o. chosen o (read k provided)) here))
        (or_default_idempotent (read k provided) opt.initial),
    read_again schema provided rest h found,
  )

  -- If a schema holds each key once, canonicalising canonical options again changes nothing.
  pub canonical_options_idempotent :
      (schema : Schema Num) (provided : Values Num)
      → IsObject schema
      → canonical_options schema (canonical_options schema provided)
        ≡ canonical_options schema provided
  unfolding canonical_options
  canonical_options_idempotent schema provided h =
      canonical_from-same schema [] (canonical_options schema provided) provided
        (read_again schema provided schema h (entries_found schema schema h (λ k m. refl)))

  default_from-eq-canonical_from :
      (schema : Schema Num) (done : Values Num)
      → default_from done schema ≡ canonical_from done schema []
  unfolding default_from canonical_from read or_default get
  default_from-eq-canonical_from [] done = refl
  default_from-eq-canonical_from ((key, opt) ∷ rest) done =
      default_from-eq-canonical_from rest (put key opt.initial done)

  -- The default options are the canonical options of an empty object.
  pub default_options-eq-canonical_options :
      (schema : Schema Num) → default_options schema ≡ canonical_options schema []
  unfolding default_options canonical_options
  default_options-eq-canonical_options schema = default_from-eq-canonical_from schema []

  canonical_from-IsObject :
      (schema : Schema Num) (done provided : Values Num)
      → IsObject done
      → IsObject (canonical_from done schema provided)
  unfolding canonical_from
  canonical_from-IsObject [] done provided h = h
  canonical_from-IsObject ((key, opt) ∷ rest) done provided h =
      canonical_from-IsObject rest _ provided (put-IsObject key _ done h)

  pub canonical_options-IsObject :
      (schema : Schema Num) (provided : Values Num) → IsObject (canonical_options schema provided)
  unfolding canonical_options
  canonical_options-IsObject schema provided = canonical_from-IsObject schema [] provided tt
