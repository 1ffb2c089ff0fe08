-- ===== src/Instances.antt =====
-- Configured compressor instances (lib/instances.ts).
pub mod Json
pub mod Parts
pub mod Identity
pub mod Invocation
pub mod Labels
pub mod Adding
pub mod Validation
pub mod Blame
use bit_bench.Prelude.{
  ℕ, ◌+◌, Option, none, some, List, [], ◌∷◌, ◌++◌, Bool, true, false, not, ◌&&◌, ◌||◌, Str, codes,
  str_eq, str_lt, has, join, length, take, sort, if◌then◌else◌, leb, ltb, ◌==◌, any, map,
}
use bit_bench.Objects.{Object, keys, get}
use bit_bench.Options.{
  Numeric, Value, undefined, null, bool, num, str, CompressorOption, Schema, Values, read, value_eq,
}
use bit_bench.Compressors.{label_separator}
use Json.{json_value}

abbrev pub max_instances_per_benchmark : ℕ
max_instances_per_benchmark = 64

abbrev pub max_label_len : ℕ
max_label_len = 64

-- Options that the native harness applies per entry.
unfoldable pub native_options : List Str
native_options =
    codes "level" ∷ codes "max_bpc" ∷ codes "lossy" ∷ codes "max_precision" ∷ codes "decimals" ∷ []

-- Options that are part of the entry's name.
unfoldable pub name_encoded_options : Object (List Str)
name_encoded_options = (codes "pfordelta", codes "codec" ∷ []) ∷ []

pub record InstanceDraft (Num : Type 0) : Type 0 where
  pub name : Str
  pub options : Values Num

abbrev pub Registry : Type 0 → Type 0
Registry Num = Object (Schema Num)

-- `Object.keys(o).sort()`
unfoldable pub sorted_keys : {A : Type 0} → Object A → List Str
unfolding sort str_lt
sorted_keys o = sort str_lt (keys o)

-- `encoded?.has(key) === true`
unfoldable pub encodes : Option (List Str) → Str → Bool
encodes none key = false
encodes (some names) key = has key names

module _ {Num : Type 0} where
  -- `registry[name] || {}`
  unfoldable pub schema_of : Str → Registry Num → Schema Num
  schema_of name registry = elim (get name registry) [ none ↦ [] | some schema ↦ schema ]

module _ {Num : Type 0} ⦃n : Numeric Num⦄ where
  -- `${value}`
  unfoldable pub show : Value Num → Str
  show undefined = codes "undefined"
  show null = codes "null"
  show (bool true) = codes "true"
  show (bool false) = codes "false"
  show (num a) = n.to_string a
  show (str s) = s

  -- `value === undefined || value === schema[key].default`
  unfoldable pub is_default : Value Num → Option (CompressorOption Num) → Bool
  unfolding value_eq
  is_default undefined opt = true
  is_default v none = false
  is_default v (some opt) = value_eq v opt.initial

  -- `typeof value === 'boolean' ? (value ? key : `${key} off`) : `${key} ${value}``
  unfoldable pub label_part : Str → Value Num → Str
  unfolding show
  label_part key (bool true) = key
  label_part key (bool false) = key ++ codes " off"
  label_part key v = key ++ codes " " ++ show v

  -- The loop of `buildLabel`; `continue` skips a key.
  unfoldable pub label_parts : List Str → Schema Num → Values Num → List Str
  label_parts [] schema options = []
  label_parts (key ∷ rest) schema options =
      let more = label_parts rest schema options in
      let value = read key options in
      if is_default value (get key schema) then more else label_part key value ∷ more

  unfoldable pub build_label : Str → Schema Num → Values Num → Str
  unfolding label_parts sorted_keys
  build_label name schema options =
      let parts = label_parts (sorted_keys schema) schema options in
      let label =
        if ltb 0 (length parts)
        then name ++ label_separator ++ join label_separator parts
        else name in
      if ltb max_label_len (length label) then take max_label_len label else label

  -- The loop of `buildInvocation`. Both branches of the source write `${key}:${value}`.
  unfoldable pub invocation_parts : List Str → Schema Num → Values Num → List Str
  invocation_parts [] schema options = []
  invocation_parts (key ∷ rest) schema options =
      let more = invocation_parts rest schema options in
      let value = read key options in
      if not (has key native_options)
      then more
      else (if is_default value (get key schema)
          then more
          else (key ++ codes ":" ++ show value) ∷ more)

  -- `typeof codec === 'string' && codec !== '' ? `pfordelta_${codec}` : name`
  unfoldable pub codec_base : Str → Value Num → Str
  codec_base name (str codec) = if str_eq codec [] then name else codes "pfordelta_" ++ codec
  codec_base name v = name

  unfoldable pub invocation_base : Str → Values Num → Str
  unfolding codec_base
  invocation_base name options =
      if str_eq name (codes "pfordelta")
      then codec_base name (read (codes "codec") options)
      else name

  unfoldable pub build_invocation : Str → Schema Num → Values Num → Str
  unfolding invocation_parts invocation_base sorted_keys
  build_invocation name schema options =
      let base = invocation_base name options in
      let parts = invocation_parts (sorted_keys schema) schema options in
      if ltb 0 (length parts) then base ++ codes "=" ++ join (codes ";") parts else base

  unfoldable pub custom_parts : List Str → Values Num → List Str
  custom_parts ks options = map (λ key. key ++ codes "=" ++ json_value (read key options)) ks

  unfoldable pub instance_identity : Str → Schema Num → Values Num → Bool → Str
  unfolding custom_parts sorted_keys
  instance_identity name schema options is_custom =
      if not is_custom
      then codes "builtin:" ++ build_invocation name schema options
      else codes "custom:"
        ++ name
        ++ codes ":"
        ++ join (codes ";") (custom_parts (sorted_keys options) options)

  unfoldable pub has_variable_options : Str → Schema Num → Bool
  unfolding encodes
  has_variable_options name schema =
      any (λ key. has key native_options || encodes (get name name_encoded_options) key)
        (keys schema)

  unfoldable pub can_add_instance : Str → Schema Num → Bool → ℕ → ℕ → Bool
  unfolding has_variable_options
  can_add_instance name schema is_custom current_count total_count =
      if leb max_instances_per_benchmark total_count
      then false
      else (if not is_custom && not (has_variable_options name schema) && ltb 0 current_count
          then false
          else true)

  unfoldable pub identity_of : Registry Num → List Str → InstanceDraft Num → Str
  unfolding schema_of
  identity_of registry custom_names inst =
      instance_identity inst.name (schema_of inst.name registry) inst.options
        (has inst.name custom_names)

  -- The loop of `validateInstances`: the name of the first instance whose identity is in `seen`.
  unfoldable pub first_duplicate :
      Registry Num → List Str → List Str → List (InstanceDraft Num) → Option Str
  unfolding identity_of
  first_duplicate registry custom_names seen [] = none
  first_duplicate registry custom_names seen (inst ∷ rest) =
      let identity = identity_of registry custom_names inst in
      let later = first_duplicate registry custom_names (identity ∷ seen) rest in
      if has identity seen then some inst.name else later

-- The messages of `validateInstances`.
pub data ValidationError : Type 0 where
  nothing_selected : ValidationError
  too_many : ValidationError
  duplicate : (name : Str) → ValidationError

-- The texts that the user reads.
unfoldable pub message : ValidationError → Str
message nothing_selected = codes "Select at least one compressor configuration"
message too_many = codes "At most 64 configurations are allowed"
message (duplicate name) =
    codes "Duplicate configuration for " ++ name ++ codes ": every instance must differ"

unfoldable pub duplicate_error : Option Str → Option ValidationError
duplicate_error none = none
duplicate_error (some name) = some (duplicate name)

module _ {Num : Type 0} ⦃n : Numeric Num⦄ where
  unfoldable pub validate_instances :
      List (InstanceDraft Num) → Registry Num → List Str → Option ValidationError
  unfolding first_duplicate duplicate_error
  validate_instances instances registry custom_names =
      if length instances == 0
      then some nothing_selected
      else (if ltb max_instances_per_benchmark (length instances)
          then some too_many
          else duplicate_error (first_duplicate registry custom_names [] instances))
