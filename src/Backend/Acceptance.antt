-- ===== src/Backend/Acceptance.antt =====
-- Which options of a request the server accepts.
use bit_bench.Prelude.{
  ◌≡◌, refl, ◌↔◌, [], ◌∷◌, Bool, true, false, ap, sym, ◌∙◌, Str, codes, str_eq_iff, has_iff, In,
  All, arith,
}
use bit_bench.Objects.{get, put, IsObject}
use bit_bench.Options.{Numeric, Value, undefined, null, bool, num, str, Values, read}
use bit_bench.Backend.{
  Result, ok, error, ◌>>=◌, JsonNumber, Any, ServerOption, ServerSchema, ServerValues, OptionError,
  below, above, within_bounds, coerce_boolean, coerce_select, coerce_float, coerce_number,
  coerce_option, option_value, canonicalize_from, canonicalize_options,
}
use bit_bench.Backend.Wire.{receive, received, get-received}

abbrev is_ok : {E A : Type 0} → Result E A → Bool
is_ok (ok a) = true
is_ok (error e) = false

is_ok_iff : {E A : Type 0} (r : Result E A) → ((a : A) × (r ≡ ok a)) ↔ (is_ok r ≡ true)
is_ok_iff (ok a) = ((λ _. refl), (λ _. (a, refl)))
is_ok_iff (error e) = ((λ h. cc (h.1)), (λ h. cc))

module _ {Num : Type 0} ⦃n : Numeric Num⦄ (j : JsonNumber Num n) where
  -- A value that the server accepts for an option: none, a truth value for a truth value, a whole
  -- number within the bounds for a number, one of the candidates for a selection.
  abbrev pub Fits : ServerOption Num → Value Num → Type 0
  Fits opt undefined = Unit {0}
  Fits opt null = Unit {0}
  Fits opt (bool b) = opt.type ≡ codes "boolean"
  Fits opt (num a) =
      (opt.type ≡ codes "number")
      × (j.is_whole a ≡ true)
      × (below opt.min (j.to_int a) ≡ false)
      × (above opt.max (j.to_int a) ≡ false)
  Fits opt (str s) = (opt.type ≡ codes "select") × In s opt.options

  option_value-Fits :
      (k : Str) (opt : ServerOption Num) (v : Value Num)
      → (is_ok (option_value j k opt (receive v)) ≡ true) ↔ Fits opt v
  unfolding option_value receive coerce_option coerce_number coerce_float within_bounds
      coerce_boolean coerce_select
  option_value-Fits k opt undefined = ((λ _. tt), (λ _. refl))
  option_value-Fits k opt null = ((λ _. tt), (λ _. refl))
  option_value-Fits k opt (bool b) =
      ground (arith, str_eq_iff opt.type (codes "number"), str_eq_iff opt.type (codes "boolean"))
  option_value-Fits k opt (num a) = ground (
    arith,
    str_eq_iff opt.type (codes "number"),
    str_eq_iff opt.type (codes "boolean"),
    str_eq_iff opt.type (codes "select"),
  )
  option_value-Fits k opt (str s) = ground (
    arith,
    str_eq_iff opt.type (codes "number"),
    str_eq_iff opt.type (codes "boolean"),
    str_eq_iff opt.type (codes "select"),
    has_iff s opt.options,
  )

  is_ok-bind :
      {A B : Type 0} (r : Result OptionError A) (f : A → Result OptionError B)
      → (is_ok (r >>= f) ≡ true)
      → (a : A) × (r ≡ ok a) × (is_ok (f a) ≡ true)
  is_ok-bind (ok a) f h = (a, refl, h)
  is_ok-bind (error e) f h = cc

  -- Every entry of the schema accepts what the request holds under its key.
  abbrev AllAccept : ServerSchema Num → ServerValues Num → Type 0
  AllAccept schema provided =
      All (λ e. is_ok (option_value j e.0 e.1 (get e.0 provided)) ≡ true) schema

  canonicalize_from-ok_iff :
      (schema : ServerSchema Num) (done provided : ServerValues Num)
      → (is_ok (canonicalize_from j done schema provided) ≡ true) ↔ AllAccept schema provided
  unfolding canonicalize_from
  canonicalize_from-ok_iff [] done provided = ((λ _. tt), (λ _. refl))
  canonicalize_from-ok_iff ((k, opt) ∷ rest) done provided =
      let step = λ (v : Any Num). canonicalize_from j (put k v done) rest provided in
      (
        (λ h.
            let (v, e, more) = is_ok-bind (option_value j k opt (get k provided)) step h in
            (ap is_ok e, (canonicalize_from-ok_iff rest (put k v done) provided).0 more)),
        (λ (here, rest_ok).
            let (v, e) = (is_ok_iff (option_value j k opt (get k provided))).1 here in
            rw e ((canonicalize_from-ok_iff rest (put k v done) provided).1 rest_ok)),
      )

  AllAccept-Fits :
      (schema : ServerSchema Num) (provided : Values Num)
      → IsObject provided
      → AllAccept schema (received provided) ↔ All (λ e. Fits e.1 (read e.0 provided)) schema
  AllAccept-Fits [] provided h = ((λ _. tt), (λ _. tt))
  AllAccept-Fits ((k, opt) ∷ rest) provided h =
      let here = option_value-Fits k opt (read k provided) in
      let more = AllAccept-Fits rest provided h in
      let same = ap (λ r. is_ok (option_value j k opt r)) (get-received k provided h) in
      ((λ (a, b). (here.0 (sym same ∙ a), more.0 b)), (λ (a, b). (same ∙ here.1 a, more.1 b)))

  -- The server accepts the options of a request exactly when each option of the schema is missing
  -- in it or null, or has a value of its type: a truth value, a whole number within the bounds, or
  -- one of the candidates. What else the request holds makes no difference.
  pub canonicalize_options-ok_iff :
      (schema : ServerSchema Num) (provided : Values Num)
      → IsObject provided
      → ((values : ServerValues Num) × (canonicalize_options j schema (received provided)
            ≡ ok values))
        ↔ All (λ e. Fits e.1 (read e.0 provided)) schema
  unfolding canonicalize_options
  canonicalize_options-ok_iff schema provided h =
      let result = is_ok_iff (canonicalize_from j [] schema (received provided)) in
      let loop = canonicalize_from-ok_iff schema [] (received provided) in
      let fits = AllAccept-Fits schema provided h in
      ((λ a. fits.0 (loop.0 (result.0 a))), (λ b. result.1 (loop.1 (fits.1 b))))
