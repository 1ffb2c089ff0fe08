-- ===== src/Backend/Naming.antt =====
-- Labels and invocations on the server (`BuildLabel`, `BuildInvocation` and `WithUniqueLabel` of
-- backend/internal/compressor/instances.go).
use bit_bench.Prelude.{
  ℕ, zero, suc, ◌+◌, ◌-◌, Option, none, some, List, [], ◌∷◌, ◌++◌, Bool, true, false, not, Str,
  codes, str_eq, str_lt, has, join, length, take, sort, if◌then◌else◌, leb, ltb, ◌==◌,
}
use bit_bench.Prelude.Int.{int_eq, itoa}
use bit_bench.Prelude.Decimal.{decimal}
use bit_bench.Objects.{keys, get}
use bit_bench.Options.{Numeric}
use bit_bench.Backend.{
  JsonNumber, Any, any_nil, any_bool, any_int, any_float, any_string, ServerOption, ServerSchema,
  ServerValues,
}

abbrev pub max_label_len : ℕ
max_label_len = 64

-- `LabelSeparator`: the middle dot is two bytes.
abbrev pub label_separator : Str
label_separator = 32 ∷ 194 ∷ 183 ∷ 32 ∷ []

unfoldable pub native_option_keys : List Str
native_option_keys =
    codes "level" ∷ codes "max_bpc" ∷ codes "lossy" ∷ codes "max_precision" ∷ codes "decimals" ∷ []

-- `truncateLabel`
unfoldable pub truncate_label : Str → Str
truncate_label label = if leb (length label) max_label_len then label else take max_label_len label

module _ {Num : Type 0} ⦃n : Numeric Num⦄ (j : JsonNumber Num n) where
  -- `a == b` on two `interface{}`: values of different types differ.
  unfoldable pub any_eq : Any Num → Any Num → Bool
  any_eq any_nil any_nil = true
  any_eq (any_bool true) (any_bool true) = true
  any_eq (any_bool false) (any_bool false) = true
  any_eq (any_int a) (any_int b) = int_eq a b
  any_eq (any_float a) (any_float b) = n.num_eq a b
  any_eq (any_string s) (any_string t) = str_eq s t
  any_eq _ _ = false

  -- `formatOptionValue`, which writes what `%v` writes.
  unfoldable pub format_option_value : Any Num → Str
  unfolding itoa
  format_option_value any_nil = codes "<nil>"
  format_option_value (any_bool true) = codes "true"
  format_option_value (any_bool false) = codes "false"
  format_option_value (any_int i) = itoa i
  format_option_value (any_float f) = j.sprint f
  format_option_value (any_string s) = s

  -- `!ok || value == opt.Default`
  unfoldable pub unchanged : Option (Any Num) → Option (ServerOption Num) → Bool
  unfolding any_eq
  unchanged none opt = true
  unchanged (some value) none = false
  unchanged (some value) (some opt) = any_eq value opt.initial

  unfoldable pub value_part : Str → Option (Any Num) → Str
  unfolding format_option_value
  value_part name none = name
  value_part name (some (any_bool true)) = name
  value_part name (some (any_bool false)) = name ++ codes " off"
  value_part name (some value) = name ++ codes " " ++ format_option_value value

  -- The loop of `BuildLabel` over the sorted names.
  unfoldable pub server_label_parts : List Str → ServerSchema Num → ServerValues Num → List Str
  unfolding unchanged value_part get
  server_label_parts [] schema values = []
  server_label_parts (name ∷ rest) schema values =
      let more = server_label_parts rest schema values in
      let value = get name values in
      if unchanged value (get name schema) then more else value_part name value ∷ more

  unfoldable pub server_build_label : Str → ServerSchema Num → ServerValues Num → Str
  unfolding server_label_parts truncate_label sort str_lt
  server_build_label name schema values =
      let parts = server_label_parts (sort str_lt (keys schema)) schema values in
      truncate_label (
        if ltb 0 (length parts)
        then name ++ label_separator ++ join label_separator parts
        else name)

  -- The loop of `BuildInvocation` over the sorted names.
  unfoldable pub server_invocation_parts : List Str → ServerSchema Num → ServerValues Num → List Str
  unfolding unchanged format_option_value get
  server_invocation_parts [] schema values = []
  server_invocation_parts (name ∷ rest) schema values =
      let more = server_invocation_parts rest schema values in
      if not (has name native_option_keys) then more else elim (get name values) [
        | none ↦ more
        | some value ↦
            if unchanged (some value) (get name schema)
            then more
            else (name ++ codes ":" ++ format_option_value value) ∷ more
      ]

  -- `codec, ok := values["codec"].(string); ok && codec != ""`
  unfoldable pub server_codec_base : Str → Option (Any Num) → Str
  server_codec_base name (some (any_string codec)) =
      if str_eq codec [] then name else codes "pfordelta_" ++ codec
  server_codec_base name value = name

  unfoldable pub server_build_invocation : Str → ServerSchema Num → ServerValues Num → Str
  unfolding server_invocation_parts server_codec_base sort str_lt get
  server_build_invocation name schema values =
      let base =
        if str_eq name (codes "pfordelta")
        then server_codec_base name (get (codes "codec") values)
        else name in
      let parts = server_invocation_parts (sort str_lt (keys schema)) schema values in
      if length parts == 0 then base else base ++ codes "=" ++ join (codes ";") parts

-- The label with the suffix " #i", cut so that both fit in `MaxLabelLen` bytes.
unfoldable pub candidate : ℕ → Str → Str
unfolding decimal
candidate i label =
    let suffix = codes " #" ++ decimal i in
    let base =
      if ltb max_label_len (length label + length suffix)
      then take (max_label_len - length suffix) label
      else label in
    base ++ suffix

-- The loop of `WithUniqueLabel` from `i` on; the first argument bounds its rounds.
unfoldable pub unique_from : ℕ → ℕ → Str → List Str → Option Str
unfolding candidate
unique_from zero i label taken = none
unique_from (suc fuel) i label taken =
    let rest = unique_from fuel (suc i) label taken in
    if not (has (candidate i label) taken) then some (candidate i label) else rest

-- `taken[label] = true; return label`
abbrev pub take_label : List Str → Option Str → Option (Str × List Str)
take_label taken none = none
take_label taken (some label) = some (label, label ∷ taken)

-- `WithUniqueLabel`: the label, and the labels that are taken then.
unfoldable pub with_unique_label : Str → List Str → Option (Str × List Str)
unfolding unique_from
with_unique_label label taken =
    take_label taken
      (if not (has label taken) then some label else unique_from (suc (length taken)) 2 label taken)
