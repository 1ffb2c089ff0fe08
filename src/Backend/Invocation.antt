-- ===== src/Backend/Invocation.antt =====
-- The server's invocations and labels against the front end's.
use bit_bench.Prelude.{
  ◌≡◌, refl, inl, inr, Option, none, some, List, [], ◌∷◌, ◌++◌, ap, ap₂, sym, ◌∙◌, Bool-cases,
  if◌then◌else◌, Str, codes, str_eq, has, All, In, str_lt, sort, length, ltb, ◌==◌, join, arith,
  In-sort, Option-cases,
}
use mathlib.Core.Option
use bit_bench.Objects.{keys, get, IsObject}
use bit_bench.Options.{Numeric, Value, undefined, Schema, Values, read, canonical_options}
use bit_bench.Instances.{
  native_options, is_default, show, sorted_keys, invocation_parts, codec_base, invocation_base,
  build_invocation,
}
use bit_bench.Options.Laws.{read_of_get}
use bit_bench.Backend.{
  ok, JsonNumber, Any, any_nil, any_bool, any_int, any_float, any_string, ServerSchema,
  ServerValues, canonicalize_options,
}
use bit_bench.Backend.Naming.{
  native_option_keys, server_invocation_parts, server_codec_base, server_build_invocation,
}
use bit_bench.Backend.Wire.{received, sent, Mirrors}
use bit_bench.Backend.Canonical.{canonicalize_options-canonical_options}
use bit_bench.Backend.Agreement.{
  AgreesAt, agrees, sorted_names, unchanged-is_default, format_option_value-show,
}
use bit_bench.Backend.Plain.{IsRegistered, IsRegistered-IsBounded}

abbrev or_undefined : {Num : Type 0} → Option (Value Num) → Value Num
or_undefined none = undefined
or_undefined (some v) = v

read-none : {Num : Type 0} (k : Str) (o : Values Num) → get k o ≡ none → read k o ≡ undefined
unfolding read
read-none k o e = rw (e, read)

read-get : {Num : Type 0} (k : Str) (o : Values Num) → or_undefined (get k o) ≡ read k o
read-get k o = elim (Option-cases (get k o)) [
  | inl e ↦ ap or_undefined e ∙ sym (read-none k o e)
  | inr (v, e) ↦ ap or_undefined e ∙ sym (read_of_get k o v e)
]

abbrev with_parts : Str → List Str → Str
with_parts base [] = base
with_parts base (p ∷ ps) = base ++ codes "=" ++ join (codes ";") (p ∷ ps)

server_with_parts :
    (base : Str) (ps : List Str)
    → (if length ps == 0 then base else base ++ codes "=" ++ join (codes ";") ps)
      ≡ with_parts base ps
server_with_parts base [] = ground arith
server_with_parts base (p ∷ ps) = ground arith

front_with_parts :
    (base : Str) (ps : List Str)
    → (if ltb 0 (length ps) then base ++ codes "=" ++ join (codes ";") ps else base)
      ≡ with_parts base ps
front_with_parts base [] = ground arith
front_with_parts base (p ∷ ps) = ground arith

same_native : (k : Str) → has k native_option_keys ≡ has k native_options
unfolding native_option_keys native_options
same_native k = refl

module _ {Num : Type 0} ⦃n : Numeric Num⦄ (j : JsonNumber Num n) where
  parts_agree :
      (front : Schema Num) (schema : ServerSchema Num) (values : ServerValues Num) (o : Values Num)
      (ks : List Str)
      → ((k : Str) → In k ks → AgreesAt j front schema values o k)
      → server_invocation_parts j ks schema values ≡ invocation_parts ks front o
  unfolding server_invocation_parts invocation_parts
  parts_agree front schema values o [] a = refl
  parts_agree front schema values o (k ∷ ks) a =
      let here = a k (inl refl) in
      let ih = parts_agree front schema values o ks (λ i m. a i (inr m)) in
      let changed = unchanged-is_default j front schema values o k here in
      let text =
        sym (format_option_value-show j here.value here.plain) ∙ ap show (sym here.reads) in
      elim (Bool-cases (has k native_options)) [
        | inr e ↦ rw (same_native k, e, ih) refl
        | inl e ↦ elim (Bool-cases (is_default (read k o) (get k front))) [
          | inl d ↦ rw (same_native k, e, here.value_found, changed, d, ih) refl
          | inr d ↦ rw (same_native k, e, here.value_found, changed, d, ih, text) refl
        ]
      ]

  codec_agrees :
      (name : Str) (now : Option (Any Num)) (o : Option (Value Num))
      → Option.map (sent j) now ≡ o
      → server_codec_base j name now ≡ codec_base name (or_undefined o)
  unfolding server_codec_base codec_base sent
  codec_agrees name none o e = rw (sym e) refl
  codec_agrees name (some any_nil) o e = rw (sym e) refl
  codec_agrees name (some (any_bool b)) o e = rw (sym e) refl
  codec_agrees name (some (any_int z)) o e = rw (sym e) refl
  codec_agrees name (some (any_float a)) o e = rw (sym e) refl
  codec_agrees name (some (any_string s)) o e = rw (sym e) refl

  -- Where the server accepts the options of a request for a compressor of the registry's kind, it
  -- builds the invocation that the front end builds from its canonical options. The schema of the
  -- front end has the keys and defaults of the server's, in any order, each key once.
  pub server_build_invocation-build_invocation :
      (name : Str) (front : Schema Num) (schema : ServerSchema Num) (provided : Values Num)
      (values : ServerValues Num)
      → Mirrors j front schema
      → IsObject front
      → IsObject schema
      → IsObject provided
      → All (λ e. IsRegistered e.1) schema
      → canonicalize_options j schema (received provided) ≡ ok values
      → server_build_invocation j name schema values
        ≡ build_invocation name front (canonical_options front provided)
  unfolding server_build_invocation build_invocation invocation_base
  server_build_invocation-build_invocation name front schema provided values m of os op r h =
      let o = canonical_options front provided in
      let names = sorted_names j front schema provided values m of os op r h in
      let codec =
        codec_agrees name (get (codes "codec") values) _ (
          canonicalize_options-canonical_options j front schema provided values (codes "codec") m of
            os op (IsRegistered-IsBounded schema r) h)
        ∙ ap (codec_base name) (read-get (codes "codec") o) in
      let parts = parts_agree front schema values o (sort str_lt (keys schema)) (λ k i.
        agrees j front schema provided values m of os op r h k
          ((In-sort str_lt k (keys schema)).0 i)) in
      let own : Str =
        if str_eq name (codes "pfordelta")
        then server_codec_base j name (get (codes "codec") values)
        else name in
      server_with_parts own (server_invocation_parts j (sort str_lt (keys schema)) schema values)
      ∙ ap₂ with_parts (ap (λ c. if str_eq name (codes "pfordelta") then c else name) codec)
          (parts ∙ ap (λ ks. invocation_parts ks front o) names)
      ∙ sym
          (front_with_parts (invocation_base name o) (invocation_parts (sorted_keys front) front o))
