-- ===== src/Backend.antt =====
-- Options on the server (backend/internal/compressor/instances.go and registry.go). Go's strings are
-- lists of bytes. A map is an association list; Go ranges over one in any order, so the theorems
-- hold for every order of the entries.
pub mod Strings
pub mod Naming
pub mod Wire
pub mod Sorting
pub mod Coercion
pub mod Canonical
pub mod Plain
pub mod Agreement
pub mod Invocation
pub mod Labels
pub mod Unique
pub mod Hosts
pub mod Resolve
pub mod Duplicates
pub mod Distinct
pub mod Presets
pub mod Sharing
pub mod Updates
pub mod Acceptance
pub mod Packages
pub mod Sound
pub mod Stores
pub mod Listing
pub mod Rows
pub mod Pages
pub mod History
pub mod Visible
pub mod Names
pub mod Keys
use bit_bench.Prelude.{
  ℕ, zero, suc, ◌+◌, ◌-◌, ◌≤◌, Option, none, some, List, [], ◌∷◌, ◌++◌, Bool, true, false, not,
  ◌&&◌, ◌||◌, Str, codes, str_eq, str_lt, has, join, length, take, sort, if◌then◌else◌, leb, ltb,
  ◌==◌, ◌≡◌,
}
use bit_bench.Prelude.Int.{ℤ, int_lt, int_eq, itoa, magnitude}
use bit_bench.Prelude.Decimal.{decimal}
use bit_bench.Objects.{Object, keys, get, put}
use bit_bench.Options.{Numeric}

-- A value and an error, of which one is nil.
pub data Result (E : Type 0) (A : Type 0) : Type 0 where
  ok : A → Result E A
  error : E → Result E A

infixl 5 ◌>>=◌
abbrev pub ◌>>=◌ : {E A B : Type 0} → Result E A → (A → Result E B) → Result E B
ok a >>= f = f a
error e >>= f = error e

-- An integer that a float64 holds exactly.
abbrev pub IsSafe : ℤ → Type 0
IsSafe z = magnitude z ≤ 9007199254740992

-- What the server uses of float64, over the numbers of JSON that the front end works with:
-- `f == math.Trunc(f)`, `int(f)`, `float64(i)` and `fmt.Sprint(f)`. Integers up to 2^53 keep their
-- value both ways, and JavaScript prints them as `strconv.Itoa` does.
pub record JsonNumber (Num : Type 0) (n : Numeric Num) : Type 0 where
  pub is_whole : Num → Bool
  pub to_int : Num → ℤ
  pub of_int : ℤ → Num
  pub sprint : Num → Str
  pub to_int-of_int : (z : ℤ) → IsSafe z → to_int (of_int z) ≡ z
  pub of_int-to_int : (a : Num) → is_whole a ≡ true → IsSafe (to_int a) → of_int (to_int a) ≡ a
  pub to_string-of_int : (z : ℤ) → IsSafe z → n.to_string (of_int z) ≡ itoa z

-- `interface{}`: what `json.Unmarshal` makes of an option, and the ints of the registry. Arrays and
-- objects, which no option type has, are left out.
pub data Any (Num : Type 0) : Type 0 where
  any_nil : Any Num
  any_bool : Bool → Any Num
  any_int : ℤ → Any Num
  any_float : Num → Any Num
  any_string : Str → Any Num

-- `compressor.Option`; `default` is a word of the source, and `initial` stands for it.
pub record ServerOption (Num : Type 0) : Type 0 where
  pub type : Str
  pub min : Option ℤ
  pub max : Option ℤ
  pub initial : Any Num
  pub step : Option ℤ
  pub options : List Str

abbrev pub ServerSchema : Type 0 → Type 0
ServerSchema Num = Object (ServerOption Num)

abbrev pub ServerValues : Type 0 → Type 0
ServerValues Num = Object (Any Num)

-- The errors of `coerceOption`; each names the option.
pub data OptionError : Type 0 where
  not_number not_integer too_low too_high not_boolean not_string unsupported_value
        unsupported_type :
      (name : Str) → OptionError

-- `opt.Min != nil && value < *opt.Min`
unfoldable pub below : Option ℤ → ℤ → Bool
below none value = false
below (some lo) value = int_lt value lo

-- `opt.Max != nil && value > *opt.Max`
unfoldable pub above : Option ℤ → ℤ → Bool
above none value = false
above (some hi) value = int_lt hi value

module _ {Num : Type 0} where
  unfoldable pub within_bounds : Str → ServerOption Num → ℤ → Result OptionError (Any Num)
  unfolding below above
  within_bounds name opt value =
      if below opt.min value
      then error (too_low name)
      else (if above opt.max value then error (too_high name) else ok (any_int value))

  unfoldable pub coerce_boolean : Str → Any Num → Result OptionError (Any Num)
  coerce_boolean name (any_bool b) = ok (any_bool b)
  coerce_boolean name raw = error (not_boolean name)

  unfoldable pub coerce_select : Str → ServerOption Num → Any Num → Result OptionError (Any Num)
  coerce_select name opt (any_string value) =
      if has value opt.options then ok (any_string value) else error (unsupported_value name)
  coerce_select name opt raw = error (not_string name)

module _ {Num : Type 0} ⦃n : Numeric Num⦄ (j : JsonNumber Num n) where
  unfoldable pub coerce_float : Str → ServerOption Num → Num → Result OptionError (Any Num)
  coerce_float name opt f =
      if not (j.is_whole f) then error (not_integer name) else within_bounds name opt (j.to_int f)

  unfoldable pub coerce_number : Str → ServerOption Num → Any Num → Result OptionError (Any Num)
  unfolding coerce_float
  coerce_number name opt (any_float f) = coerce_float name opt f
  coerce_number name opt (any_int i) = coerce_float name opt (j.of_int i)
  coerce_number name opt raw = error (not_number name)

  unfoldable pub coerce_option : Str → ServerOption Num → Any Num → Result OptionError (Any Num)
  unfolding coerce_number coerce_boolean coerce_select
  coerce_option name opt raw =
      if str_eq opt.type (codes "number")
      then coerce_number name opt raw
      else (if str_eq opt.type (codes "boolean")
          then coerce_boolean name raw
          else (if str_eq opt.type (codes "select")
              then coerce_select name opt raw
              else error (unsupported_type name)))

  -- `!ok || raw == nil`: a missing value is the default.
  unfoldable pub option_value :
      Str → ServerOption Num → Option (Any Num) → Result OptionError (Any Num)
  unfolding coerce_option
  option_value name opt none = ok opt.initial
  option_value name opt (some any_nil) = ok opt.initial
  option_value name opt (some raw) = coerce_option name opt raw

  -- The loop of `CanonicalizeOptions`, from the map filled so far.
  unfoldable pub canonicalize_from :
      ServerValues Num → ServerSchema Num → ServerValues Num → Result OptionError (ServerValues Num)
  unfolding option_value put get
  canonicalize_from values [] provided = ok values
  canonicalize_from values ((name, opt) ∷ rest) provided = do
    value ← option_value name opt (get name provided)
    canonicalize_from (put name value values) rest provided

  unfoldable pub canonicalize_options :
      ServerSchema Num → ServerValues Num → Result OptionError (ServerValues Num)
  unfolding canonicalize_from
  canonicalize_options schema provided = canonicalize_from [] schema provided
