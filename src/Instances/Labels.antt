-- ===== src/Instances/Labels.antt =====
-- The automatic label of a configuration.
use bit_bench.Prelude.{
  ◌≡◌, refl, inl, inr, some, List, [], ◌∷◌, ◌++◌, ℕ, Str, In, All, arith, ◌≤◌, Bool-cases, sym, ◌∙◌,
  if◌then◌else◌, length, ltb, take, length-take, ltb→le, take_all, join, none, true, Option,
  In-sort, str_lt,
}
use bit_bench.Objects.{get, keys, IsObject}
use bit_bench.Objects.Laws.{get_of_In, All-get}
use bit_bench.Options.{
  Numeric, Value, CompressorOption, Schema, Values, read, canonical_options, default_options,
  undefined, null, bool, num, str, or_default,
}
use bit_bench.Options.Laws.{
  value_eq_iff, default_options-eq-canonical_options, read_of_get, get-canonical_options-chosen,
  chosen,
}
use bit_bench.Compressors.{label_separator}
use bit_bench.Instances.{label_parts, build_label, sorted_keys, is_default}
use bit_bench.Instances.Parts.{FitsType, effective}
use bit_bench.Instances.Identity.{same_effect}

cut : (m : ℕ) (label : Str) → length (if ltb m (length label) then take m label else label) ≤ m
cut m label = elim (Bool-cases (ltb m (length label))) [
  | inl e ↦ rw e (omega (arith, length-take m label))
  | inr e ↦ rw e (ltb→le m (length label) e)
]

short :
    (m : ℕ) (label : Str) → (if ltb m (length label) then take m label else label) ≡ take m label
short m label = elim (Bool-cases (ltb m (length label))) [
  | inl e ↦ rw e
  | inr e ↦ rw e (sym (take_all m label (ltb→le m (length label) e)))
]

module _ {Num : Type 0} ⦃n : Numeric Num⦄ where
  -- Whatever the name, the schema and the options, a label is at most 64 units long.
  pub length-build_label :
      (name : Str) (schema : Schema Num) (options : Values Num)
      → length (build_label name schema options) ≤ 64
  unfolding build_label
  length-build_label name schema options =
      let parts = label_parts (sorted_keys schema) schema options in
      cut 64 (
        if ltb 0 (length parts)
        then name ++ label_separator ++ join label_separator parts
        else name)

  -- Every option of the schema fits its type.
  abbrev pub FitsAll : Schema Num → Values Num → Type 0
  FitsAll schema options = All (λ e. FitsType e.1.type (read e.0 options)) schema

  label_parts-same :
      (ks : List Str) (schema : Schema Num) (o o' : Values Num)
      → FitsAll schema o
      → FitsAll schema o'
      → All (λ e. effective e.1 (read e.0 o) ≡ effective e.1 (read e.0 o')) schema
      → ((k : Str) → In k ks → In k (keys schema))
      → label_parts ks schema o ≡ label_parts ks schema o'
  unfolding label_parts
  label_parts-same [] schema o o' fits fits' same inside = refl
  label_parts-same (k ∷ ks) schema o o' fits fits' same inside =
      let (opt, found) = get_of_In k schema (inside k (inl refl)) in
      let ih = label_parts-same ks schema o o' fits fits' same (λ j m. inside j (inr m)) in
      elim (same_effect (read k o) (read k o') opt (All-get _ k schema opt fits found)
        (All-get _ k schema opt fits' found) (All-get _ k schema opt same found)) [
          | inl (d, d') ↦ rw (found, d, d') ih
          | inr (d, d', e) ↦ rw (found, d, d', e, ih)
        ]

  -- Configurations whose options fit their types and have the same effective values have the
  -- same label.
  build_label-same :
      (name : Str) (schema : Schema Num) (o o' : Values Num)
      → FitsAll schema o
      → FitsAll schema o'
      → All (λ e. effective e.1 (read e.0 o) ≡ effective e.1 (read e.0 o')) schema
      → build_label name schema o ≡ build_label name schema o'
  unfolding build_label sorted_keys
  build_label-same name schema o o' fits fits' same = rw (
      label_parts-same (sorted_keys schema) schema o o' fits fits' same
        (λ k m. (In-sort str_lt k (keys schema)).0 m))

  is_default-initial :
      (v : Value Num) (opt : CompressorOption Num)
      → v ≡ opt.initial
      → is_default v (some opt) ≡ true
  unfolding is_default
  is_default-initial undefined opt e = refl
  is_default-initial null opt e = (value_eq_iff null opt.initial).1 e
  is_default-initial (bool b) opt e = (value_eq_iff (bool b) opt.initial).1 e
  is_default-initial (num a) opt e = (value_eq_iff (num a) opt.initial).1 e
  is_default-initial (str s) opt e = (value_eq_iff (str s) opt.initial).1 e

  read-default_options :
      (schema : Schema Num) (k : Str) (opt : CompressorOption Num)
      → IsObject schema
      → get k schema ≡ some opt
      → read k (default_options schema) ≡ opt.initial
  read-default_options schema k opt object found = rw default_options-eq-canonical_options (
      read_of_get k (canonical_options schema []) opt.initial
        (get-canonical_options-chosen schema [] k object ∙ default_chosen (get k schema) found))
    where
      default_chosen :
          (o : Option (CompressorOption Num))
          → o ≡ some opt
          → chosen o (read k []) ≡ some opt.initial
      default_chosen none e = cc
      default_chosen (some p) e = unfold read get or_default in ground arith

  label_parts-default :
      (ks : List Str) (schema : Schema Num) (o : Values Num)
      → ((k : Str) (opt : CompressorOption Num) → get k schema ≡ some opt → read k o ≡ opt.initial)
      → ((k : Str) → In k ks → In k (keys schema))
      → label_parts ks schema o ≡ []
  unfolding label_parts
  label_parts-default [] schema o h inside = refl
  label_parts-default (k ∷ ks) schema o h inside =
      let (opt, found) = get_of_In k schema (inside k (inl refl)) in
      rw (found, is_default-initial (read k o) opt (h k opt found))
        (label_parts-default ks schema o h (λ j m. inside j (inr m)))

  -- If a schema holds each key once, the label of the default configuration is the compressor's name, cut at 64 units.
  pub build_label-default_options :
      (name : Str) (schema : Schema Num)
      → IsObject schema
      → build_label name schema (default_options schema) ≡ take 64 name
  unfolding build_label
  build_label-default_options name schema object =
      rw
        (label_parts-default (sorted_keys schema) schema (default_options schema)
          (λ k opt found. read-default_options schema k opt object found)
          (λ k m. unfold sorted_keys in (In-sort str_lt k (keys schema)).0 m))
        (short 64 name)
