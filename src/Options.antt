-- ===== src/Options.antt =====
-- The option schema of a compressor (types/index.ts) and the values of its options.
pub mod Laws
pub mod Naturals
use bit_bench.Prelude.{
  ◌≡◌, ◌↔◌, ◌≢◌, Option, none, some, List, [], ◌∷◌, Bool, true, false, ◌&&◌, Str, str_eq, In,
}
use bit_bench.Objects.{Object, get, put}

-- What the sources use of JavaScript numbers. `NaN` and -0, which JSON cannot carry, are left out:
-- `===` is equality, and `Number.prototype.toString` tells numbers apart and writes no ";".
pub record Numeric (Num : Type 0) : Type 0 where
  pub num_eq : Num → Num → Bool
  pub to_string : Num → Str
  pub num_eq_iff : (a b : Num) → (num_eq a b ≡ true) ↔ (a ≡ b)
  pub to_string_inj : (a b : Num) → to_string a ≡ to_string b → a ≡ b
  pub to_string_plain : (a : Num) → ¬ (In b';' (to_string a))

-- The values that an option takes. Arrays and objects, which no option type has, are left out.
pub data Value (Num : Type 0) : Type 0 where
  undefined null : Value Num
  bool : Bool → Value Num
  num : Num → Value Num
  str : Str → Value Num

pub data OptionType : Type 0 where
  number boolean select : OptionType

-- `default` is a word of the source; the field `initial` stands for it.
pub record CompressorOption (Num : Type 0) : Type 0 where
  pub type : OptionType
  pub min : Option Num
  pub max : Option Num
  pub initial : Value Num
  pub step : Option Num
  pub options : Option (List Str)

abbrev pub Schema : Type 0 → Type 0
Schema Num = Object (CompressorOption Num)

abbrev pub Values : Type 0 → Type 0
Values Num = Object (Value Num)

module _ {Num : Type 0} where
  -- `options[key]`: a missing key reads as `undefined`.
  unfoldable pub read : Str → Values Num → Value Num
  unfolding get
  read k o = elim (get k o) [ none ↦ undefined | some v ↦ v ]

  -- `===`
  unfoldable pub value_eq : ⦃n : Numeric Num⦄ → Value Num → Value Num → Bool
  value_eq undefined undefined = true
  value_eq null null = true
  value_eq (bool true) (bool true) = true
  value_eq (bool false) (bool false) = true
  value_eq ⦃n⦄ (num a) (num b) = n.num_eq a b
  value_eq (str s) (str t) = str_eq s t
  value_eq _ _ = false

  -- The loop of `defaultOptions`, from the object filled so far.
  default_from : Values Num → Schema Num → Values Num
  default_from done [] = done
  default_from done ((key, opt) ∷ rest) = default_from (put key opt.initial done) rest

  unfoldable pub default_options : Schema Num → Values Num
  unfolding default_from
  default_options schema = default_from [] schema

  -- `value === undefined || value === null ? opt.default : value`
  unfoldable pub or_default : Value Num → Value Num → Value Num
  or_default undefined d = d
  or_default null d = d
  or_default v d = v

  -- The loop of `canonicalOptions`.
  canonical_from : Values Num → Schema Num → Values Num → Values Num
  canonical_from done [] provided = done
  canonical_from done ((key, opt) ∷ rest) provided =
      canonical_from (put key (or_default (read key provided) opt.initial) done) rest provided

  unfoldable pub canonical_options : Schema Num → Values Num → Values Num
  unfolding canonical_from or_default
  canonical_options schema provided = canonical_from [] schema provided
