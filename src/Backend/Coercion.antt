-- ===== src/Backend/Coercion.antt =====
-- What the server makes of one option of a request.
use bit_bench.Prelude.{
  ◌≡◌, refl, inl, inr, Option, none, some, false, ap, sym, Bool-cases, if◌then◌else◌, Str, codes,
  str_eq, str_eq_iff, arith,
}
use bit_bench.Prelude.Int.{ℤ, int_lt, magnitude_between}
use bit_bench.Options.{Numeric, Value, undefined, null, bool, num, str, or_default}
use bit_bench.Backend.{
  Result, ok, error, ◌>>=◌, IsSafe, JsonNumber, Any, any_bool, any_int, any_float, any_string,
  ServerOption, OptionError, below, above, within_bounds, coerce_boolean, coerce_select,
  coerce_float, coerce_number, coerce_option, option_value,
}
use bit_bench.Backend.Wire.{receive, sent, IsBounded}

pub >>=-eq-ok :
    {E A B : Type 0} (m : Result E A) (f : A → Result E B) (b : B)
    → (m >>= f) ≡ ok b
    → (a : A) × (m ≡ ok a) × (f a ≡ ok b)
>>=-eq-ok (ok a) f b h = (a, refl, h)
>>=-eq-ok (error e) f b h = cc

pub error-ne-ok : {E A : Type 0} (e : E) (a : A) → error e ≡ ok a → ⊥
error-ne-ok e a h = cc

-- The value of a result, or another one.
abbrev pub value_of : {E A : Type 0} → A → Result E A → A
value_of d (ok a) = a
value_of d (error e) = d

within_bounds-ok :
    {Num : Type 0} (name : Str) (opt : ServerOption Num) (z lo hi : ℤ) (v : Any Num)
    → opt.min ≡ some lo
    → opt.max ≡ some hi
    → within_bounds name opt z ≡ ok v
    → (v ≡ any_int z) × (int_lt z lo ≡ false) × (int_lt hi z ≡ false)
unfolding within_bounds
within_bounds-ok name opt z lo hi v p q h =
    let h' : (if int_lt z lo
          then error (OptionError.too_low name)
          else (if int_lt hi z then error (OptionError.too_high name) else ok (any_int z)))
        ≡ ok v =
      unfold below above in rw (p, q) at h in
    elim (Bool-cases (int_lt z lo)) [
      | inl e ↦ absurd (error-ne-ok _ v (rw e at h'))
      | inr e ↦ elim (Bool-cases (int_lt hi z)) [
        | inl e' ↦ absurd (error-ne-ok _ v (rw (e, e') at h'))
        | inr e' ↦ (ap (value_of v) (sym (rw (e, e') at h')), e, e')
      ]
    ]

abbrev pub value_or_nil : {Num : Type 0} → Option (Value Num) → Value Num
value_or_nil none = null
value_or_nil (some v) = v

abbrev pub IsNumeric : {Num : Type 0} → ServerOption Num → Type 0
IsNumeric o = o.type ≡ codes "number"

module _ {Num : Type 0} ⦃n : Numeric Num⦄ (j : JsonNumber Num n) where
  -- An accepted number is the one that was sent, as an int.
  pub coerce_float-ok :
      (name : Str) (opt : ServerOption Num) (a : Num) (v : Any Num)
      → IsNumeric opt
      → IsBounded opt
      → coerce_float j name opt a ≡ ok v
      → (z : ℤ) × (v ≡ any_int z) × (IsSafe z) × (j.of_int z ≡ a)
  unfolding coerce_float
  coerce_float-ok name opt a v t bounded h = elim (Bool-cases (j.is_whole a)) [
    | inr e ↦ absurd (error-ne-ok _ v (rw e at h))
    | inl e ↦
        let (lo, hi, p, q, s, s') = bounded t in
        let (same, l, u) = within_bounds-ok name opt (j.to_int a) lo hi v p q (rw e at h) in
        let safe = magnitude_between lo hi (j.to_int a) _ s s' l u in
        (j.to_int a, same, safe, j.of_int-to_int a e safe)
  ]

  -- What the server accepts in place of a value that was sent is that value.
  abbrev pub Keeps : Value Num → Any Num → Type 0
  Keeps raw v = sent j v ≡ raw

  coerce_number-ok :
      (name : Str) (opt : ServerOption Num) (raw : Value Num) (w v : Any Num)
      → IsNumeric opt
      → IsBounded opt
      → receive raw ≡ some w
      → coerce_number j name opt w ≡ ok v
      → Keeps raw v
  unfolding coerce_number receive sent
  coerce_number-ok name opt (num a) (any_float b) v t bounded r h =
      let (z, same, safe, back) = coerce_float-ok name opt b v t bounded h in rw (same, back) (cc)
  coerce_number-ok name opt (num a) (any_int z) v t bounded r h = cc
  coerce_number-ok name opt (bool b) (any_int z) v t bounded r h = cc
  coerce_number-ok name opt _ _ v t bounded r h = cc

  coerce_boolean-ok :
      (name : Str) (raw : Value Num) (w v : Any Num)
      → receive raw ≡ some w
      → coerce_boolean name w ≡ ok v
      → Keeps raw v
  unfolding coerce_boolean receive sent
  coerce_boolean-ok name (bool b) (any_bool c) v r h = ground arith
  coerce_boolean-ok name _ _ v r h = cc

  coerce_select-ok :
      (name : Str) (opt : ServerOption Num) (raw : Value Num) (w v : Any Num)
      → receive raw ≡ some w
      → coerce_select name opt w ≡ ok v
      → Keeps raw v
  unfolding coerce_select receive sent
  coerce_select-ok name opt (str s) (any_string t) v r h = ground arith
  coerce_select-ok name opt _ _ v r h = cc

  coerce_option-ok :
      (name : Str) (opt : ServerOption Num) (raw : Value Num) (w v : Any Num)
      → IsBounded opt
      → receive raw ≡ some w
      → coerce_option j name opt w ≡ ok v
      → Keeps raw v
  unfolding coerce_option
  coerce_option-ok name opt raw w v bounded r h =
      elim (Bool-cases (str_eq opt.type (codes "number"))) [
        | inl e ↦ coerce_number-ok name opt raw w v ((str_eq_iff _ _).0 e) bounded r (rw e at h)
        | inr e ↦ elim (Bool-cases (str_eq opt.type (codes "boolean"))) [
          | inl e' ↦ coerce_boolean-ok name raw w v r (rw (e, e') at h)
          | inr e' ↦ elim (Bool-cases (str_eq opt.type (codes "select"))) [
            | inl d ↦ coerce_select-ok name opt raw w v r (rw (e, e', d) at h)
            | inr d ↦ absurd (error-ne-ok _ v (rw (e, e', d) at h))
          ]
        ]
      ]

  -- A missing value is the default, another one is kept.
  pub option_value-ok :
      (name : Str) (opt : ServerOption Num) (raw : Value Num) (v : Any Num)
      → IsBounded opt
      → option_value j name opt (receive raw) ≡ ok v
      → sent j v ≡ or_default raw (sent j opt.initial)
  unfolding option_value receive or_default
  option_value-ok name opt undefined v bounded h = ap (sent j) (sym (ap (value_of v) h))
  option_value-ok name opt null v bounded h = ap (sent j) (sym (ap (value_of v) h))
  option_value-ok name opt (bool b) v bounded h =
      coerce_option-ok name opt (bool b) (any_bool b) v bounded refl h
  option_value-ok name opt (num a) v bounded h =
      coerce_option-ok name opt (num a) (any_float a) v bounded refl h
  option_value-ok name opt (str s) v bounded h =
      coerce_option-ok name opt (str s) (any_string s) v bounded refl h
