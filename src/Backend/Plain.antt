-- ===== src/Backend/Plain.antt =====
-- Values of the registry's kinds, which both sides compare and write alike.
use bit_bench.Prelude.{
  ◌≡◌, refl, inl, inr, Option, none, some, [], ◌∷◌, true, false, ap, sym, ◌∙◌, Bool-cases, Str,
  codes, str_eq, str_eq_iff, has, has_iff, arith, All, All-In,
}
use bit_bench.Prelude.Int.{ℤ, int_eq, int_eq_iff}
use bit_bench.Prelude.Utf8.{IsAscii}
use bit_bench.Options.{Numeric, value_eq}
use bit_bench.Backend.{
  ok, IsSafe, JsonNumber, Any, any_nil, any_bool, any_int, any_float, any_string, ServerOption,
  ServerSchema, option_value, coerce_option, coerce_number, coerce_boolean, coerce_select,
}
use bit_bench.Backend.Naming.{any_eq}
use bit_bench.Backend.Wire.{sent, IsBounded}
use bit_bench.Backend.Coercion.{coerce_float-ok, error-ne-ok, value_of}

-- A value of the registry's kinds: a truth value, an integer of at most 2^53 or an ASCII text.
abbrev pub IsPlain : {Num : Type 0} → Any Num → Type 0
IsPlain (any_bool b) = Unit {0}
IsPlain (any_int z) = IsSafe z
IsPlain (any_string s) = IsAscii s
IsPlain _ = ⊥

-- An option as the registry has them: bounds, default and candidates are of these kinds.
abbrev pub IsRegistered : {Num : Type 0} → ServerOption Num → Type 0
IsRegistered o = IsBounded o × IsPlain o.initial × All IsAscii o.options

pub IsRegistered-IsBounded :
    {Num : Type 0} (schema : ServerSchema Num)
    → All (λ e. IsRegistered e.1) schema
    → All (λ e. IsBounded e.1) schema
IsRegistered-IsBounded [] h = tt
IsRegistered-IsBounded (e ∷ schema) ((b, _, _), h) = (b, IsRegistered-IsBounded schema h)

module _ {Num : Type 0} ⦃n : Numeric Num⦄ (j : JsonNumber Num n) where
  of_int-injective : (x y : ℤ) → IsSafe x → IsSafe y → j.of_int x ≡ j.of_int y → x ≡ y
  of_int-injective x y h h' e =
      sym (j.to_int-of_int x h) ∙ ap (λ a. j.to_int a) e ∙ j.to_int-of_int y h'

  ints_agree : (x y : ℤ) → IsSafe x → IsSafe y → int_eq x y ≡ n.num_eq (j.of_int x) (j.of_int y)
  ints_agree x y h h' = elim (Bool-cases (int_eq x y)) [
    | inl e ↦ rw e (sym ((n.num_eq_iff _ _).1 (ap (λ a. j.of_int a) ((int_eq_iff x y).0 e))))
    | inr e ↦ elim (Bool-cases (n.num_eq (j.of_int x) (j.of_int y))) [
      | inl d ↦ cc (e, (int_eq_iff x y).1 (of_int-injective x y h h' ((n.num_eq_iff _ _).0 d)))
      | inr d ↦ e ∙ sym d
    ]
  ]

  -- The server compares two values as the front end compares what it reads for them.
  pub any_eq-value_eq :
      (v d : Any Num) → IsPlain v → IsPlain d → any_eq j v d ≡ value_eq (sent j v) (sent j d)
  unfolding any_eq value_eq sent
  any_eq-value_eq (any_int x) (any_int y) h h' = ints_agree x y h h'
  any_eq-value_eq (any_bool true) (any_bool true) h h' = refl
  any_eq-value_eq (any_bool true) (any_bool false) h h' = refl
  any_eq-value_eq (any_bool false) (any_bool true) h h' = refl
  any_eq-value_eq (any_bool false) (any_bool false) h h' = refl
  any_eq-value_eq (any_bool b) (any_int y) h h' = ground arith
  any_eq-value_eq (any_bool b) (any_string y) h h' = ground arith
  any_eq-value_eq (any_string s) (any_string t) h h' = refl
  any_eq-value_eq _ _ h h' = ground arith

  coerce_number-IsPlain :
      (name : Str) (opt : ServerOption Num) (w v : Any Num)
      → opt.type ≡ codes "number"
      → IsBounded opt
      → coerce_number j name opt w ≡ ok v
      → IsPlain v
  unfolding coerce_number
  coerce_number-IsPlain name opt (any_float a) v t b h =
      let (z, same, safe, _) = coerce_float-ok j name opt a v t b h in rw same safe
  coerce_number-IsPlain name opt (any_int i) v t b h =
      let (z, same, safe, _) = coerce_float-ok j name opt (j.of_int i) v t b h in rw same safe
  coerce_number-IsPlain name opt _ v t b h = cc

  coerce_boolean-IsPlain : (name : Str) (w v : Any Num) → coerce_boolean name w ≡ ok v → IsPlain v
  unfolding coerce_boolean
  coerce_boolean-IsPlain name (any_bool b) v h = rw (ap (value_of v) (sym h)) tt
  coerce_boolean-IsPlain name _ v h = cc

  coerce_select-IsPlain :
      (name : Str) (opt : ServerOption Num) (w v : Any Num)
      → All IsAscii opt.options
      → coerce_select name opt w ≡ ok v
      → IsPlain v
  unfolding coerce_select
  coerce_select-IsPlain name opt (any_string s) v a h = elim (Bool-cases (has s opt.options)) [
    | inl e ↦
        rw (ap (value_of v) (sym (rw e at h)))
          (All-In IsAscii opt.options s a ((has_iff s opt.options).0 e))
    | inr e ↦ absurd (error-ne-ok _ v (rw e at h))
  ]
  coerce_select-IsPlain name opt _ v a h = cc

  coerce_option-IsPlain :
      (name : Str) (opt : ServerOption Num) (w v : Any Num)
      → IsRegistered opt
      → coerce_option j name opt w ≡ ok v
      → IsPlain v
  unfolding coerce_option
  coerce_option-IsPlain name opt w v (b, _, a) h =
      elim (Bool-cases (str_eq opt.type (codes "number"))) [
        | inl e ↦ coerce_number-IsPlain name opt w v ((str_eq_iff _ _).0 e) b (rw e at h)
        | inr e ↦ elim (Bool-cases (str_eq opt.type (codes "boolean"))) [
          | inl e' ↦ coerce_boolean-IsPlain name w v (rw (e, e') at h)
          | inr e' ↦ elim (Bool-cases (str_eq opt.type (codes "select"))) [
            | inl d ↦ coerce_select-IsPlain name opt w v a (rw (e, e', d) at h)
            | inr d ↦ absurd (error-ne-ok _ v (rw (e, e', d) at h))
          ]
        ]
      ]

  pub option_value-IsPlain :
      (name : Str) (opt : ServerOption Num) (raw : Option (Any Num)) (v : Any Num)
      → IsRegistered opt
      → option_value j name opt raw ≡ ok v
      → IsPlain v
  unfolding option_value
  option_value-IsPlain name opt none v (b, p, a) h = rw (ap (value_of v) (sym h)) p
  option_value-IsPlain name opt (some any_nil) v (b, p, a) h = rw (ap (value_of v) (sym h)) p
  option_value-IsPlain name opt (some w) v r h = coerce_option-IsPlain name opt w v r h
