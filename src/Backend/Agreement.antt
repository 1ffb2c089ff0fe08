-- ===== src/Backend/Agreement.antt =====
-- The server's canonical options stand for the front end's, option by option.
use bit_bench.Prelude.{
  subst, ◌≡◌, refl, Option, none, some, true, false, ap, sym, ◌∙◌, Str, All, In, str_lt, sort,
}
use mathlib.Core.Option
use bit_bench.Objects.{keys, get, IsObject}
use bit_bench.Objects.Laws.{All-get, get_of_In, In-keys_of_get}
use bit_bench.Options.{Numeric, CompressorOption, Schema, Values, read, value_eq, canonical_options}
use bit_bench.Instances.{is_default, sorted_keys, show}
use bit_bench.Options.Laws.{read_of_get}
use bit_bench.Backend.{
  ok, JsonNumber, Any, any_nil, any_bool, any_int, any_float, any_string, ServerOption,
  ServerSchema, ServerValues, canonicalize_options,
}
use bit_bench.Backend.Naming.{any_eq, unchanged, format_option_value}
use bit_bench.Backend.Wire.{received, sent, Mirrors}
use bit_bench.Backend.Sorting.{sort-same}
use bit_bench.Backend.Canonical.{
  canonicalize_options-canonical_options, Holds, Holds-canonicalize_options,
}
use bit_bench.Backend.Plain.{
  IsPlain, IsRegistered, IsRegistered-IsBounded, any_eq-value_eq, option_value-IsPlain,
}

module _ {Num : Type 0} ⦃n : Numeric Num⦄ (j : JsonNumber Num n) where
  -- What both sides know of one option: the server's value, and the front end's reading of it.
  pub record AgreesAt (front : Schema Num) (schema : ServerSchema Num) (values : ServerValues Num)
      (o : Values Num) (k : Str) : Type 0 where
    pub option : ServerOption Num
    front_option : CompressorOption Num
    pub value : Any Num
    pub found : get k schema ≡ some option
    front_found : get k front ≡ some front_option
    same_default : front_option.initial ≡ sent j option.initial
    pub value_found : get k values ≡ some value
    pub reads : read k o ≡ sent j value
    pub plain : IsPlain value
    plain_default : IsPlain option.initial

  is_default-sent :
      (w : Any Num) (opt : CompressorOption Num)
      → is_default (sent j w) (some opt) ≡ value_eq (sent j w) opt.initial
  unfolding is_default sent
  is_default-sent any_nil opt = refl
  is_default-sent (any_bool b) opt = refl
  is_default-sent (any_int z) opt = refl
  is_default-sent (any_float a) opt = refl
  is_default-sent (any_string s) opt = refl

  unchanged-option :
      (w : Any Num) (opt : ServerOption Num)
      → unchanged j (some w) (some opt) ≡ any_eq j w opt.initial
  unfolding unchanged
  unchanged-option w opt = refl

  -- An option is a default on the server exactly when it is one in the front end.
  pub unchanged-is_default :
      (front : Schema Num) (schema : ServerSchema Num) (values : ServerValues Num) (o : Values Num)
      (k : Str)
      → (a : AgreesAt front schema values o k)
      → unchanged j (some a.value) (get k schema) ≡ is_default (read k o) (get k front)
  unchanged-is_default front schema values o k a =
      ap (unchanged j (some a.value)) a.found
      ∙ unchanged-option a.value a.option
      ∙ any_eq-value_eq j a.value a.option.initial a.plain a.plain_default
      ∙ ap (value_eq (sent j a.value)) (sym a.same_default)
      ∙ sym (is_default-sent a.value a.front_option)
      ∙ ap (λ v. is_default v (some a.front_option)) (sym a.reads)
      ∙ ap (is_default (read k o)) (sym a.front_found)

  mirrored :
      (f : Option (CompressorOption Num)) (o : ServerOption Num)
      → Option.map (λ (o : CompressorOption Num). o.initial) f ≡ some (sent j o.initial)
      → (fo : CompressorOption Num) × (f ≡ some fo) × (fo.initial ≡ sent j o.initial)
  mirrored none o e = cc
  mirrored (some fo) o e = (fo, refl, cc)

  module _ (front : Schema Num) (schema : ServerSchema Num) (provided : Values Num)
      (values : ServerValues Num) (mirrors : Mirrors j front schema) (of : IsObject front)
      (os : IsObject schema) (op : IsObject provided)
      (registered : All (λ e. IsRegistered e.1) schema)
      (accepted : canonicalize_options j schema (received provided) ≡ ok values) where
    -- Both sides agree on every option of the schema.
    pub agrees :
        (k : Str)
        → In k (keys schema)
        → AgreesAt front schema values (canonical_options front provided) k
    agrees k m =
        let (opt, found) = get_of_In k schema m in
        let (fo, front_found, same) =
          mirrored (get k front) opt
            (mirrors k ∙ ap (Option.map (λ (o : ServerOption Num). sent j o.initial)) found) in
        let r = All-get (λ e. IsRegistered e.1) k schema opt registered found in
        let held : Holds j k (some opt) (get k (received provided)) none (get k values) =
          subst (λ x. Holds j k x (get k (received provided)) none (get k values)) found
            (Holds-canonicalize_options j schema (received provided) values k os accepted) in
        let (w, e, now) = held in
        record {
          option = opt;
          front_option = fo;
          value = w;
          found = found;
          front_found = front_found;
          same_default = same;
          value_found = now;
          reads = read_of_get k _ (sent j w) (
              sym (
                canonicalize_options-canonical_options j front schema provided values k mirrors of
                  os op (IsRegistered-IsBounded schema registered) accepted)
              ∙ ap (Option.map (sent j)) now);
          plain = option_value-IsPlain j k opt (get k (received provided)) w r e;
          plain_default = r.1;
        }

    -- Both sides sort the same names.
    pub sorted_names : sort str_lt (keys schema) ≡ sorted_keys front
    unfolding sorted_keys
    sorted_names =
        sort-same (keys schema) (keys front) os of
          (λ k m. let a = agrees k m in In-keys_of_get k front a.front_option a.front_found)
          (λ k m.
            let (fo, found) = get_of_In k front m in
            let (so, e, _) =
              mirrored_back (get k schema) fo (
                ap (Option.map (λ (o : CompressorOption Num). o.initial)) (sym found)
                ∙ mirrors k) in
            In-keys_of_get k schema so e)
      where
        mirrored_back :
            (s : Option (ServerOption Num)) (fo : CompressorOption Num)
            → some fo.initial ≡ Option.map (λ (o : ServerOption Num). sent j o.initial) s
            → (so : ServerOption Num) × (s ≡ some so) × Unit {0}
        mirrored_back none fo e = cc
        mirrored_back (some so) fo e = (so, refl, tt)

-- A value of the registry's kinds is written the same way on both sides.
pub format_option_value-show :
    {Num : Type 0} ⦃n : Numeric Num⦄ (j : JsonNumber Num n) (v : Any Num)
    → IsPlain v
    → show (sent j v) ≡ format_option_value j v
unfolding format_option_value show sent
format_option_value-show j (any_bool true) h = refl
format_option_value-show j (any_bool false) h = refl
format_option_value-show j (any_int z) h = j.to_string-of_int z h
format_option_value-show j (any_string s) h = refl
format_option_value-show j any_nil h = elim h [ ]
format_option_value-show j (any_float a) h = elim h [ ]
