-- ===== src/Backend/Labels.antt =====
-- The server's labels, which count bytes, against the front end's, which count UTF-16 units.
use bit_bench.Prelude.{
  ◌≡◌, refl, inl, inr, some, List, [], ◌∷◌, ◌++◌, true, false, ap, ap₂, sym, ◌∙◌, Bool-cases,
  if◌then◌else◌, Str, codes, All, In, str_lt, sort, length, ltb, leb, take, drop, join, arith,
  In-sort, ◌≤◌, ◌<◌, ℕ, take-append-drop, take-append_self, length-take, ltb→lt, All-In, All-of_In,
}
use bit_bench.Prelude.Int.{itoa, itoa-IsSigned, IsSigned}
use bit_bench.Prelude.Utf8.{utf8, utf8_unit, IsAscii, utf8-IsAscii, utf8-append, length-utf8}
use bit_bench.Compressors
use bit_bench.Objects.{keys, get, IsObject}
use bit_bench.Options.{Numeric, Schema, Values, read, canonical_options}
use bit_bench.Instances.{is_default, sorted_keys, label_part, label_parts, build_label}
use bit_bench.Backend.{
  ok, JsonNumber, Any, any_nil, any_bool, any_int, any_float, any_string, ServerSchema,
  ServerValues, canonicalize_options,
}
use bit_bench.Backend.Naming.{
  format_option_value, value_part, server_label_parts, server_build_label, truncate_label,
  label_separator,
}
use bit_bench.Backend.Wire.{received, sent, Mirrors}
use bit_bench.Backend.Agreement.{
  AgreesAt, agrees, sorted_names, unchanged-is_default, format_option_value-show,
}
use bit_bench.Backend.Plain.{IsPlain, IsRegistered}

leb-lt : (a b : ℕ) → b < a → leb a b ≡ false
leb-lt a b h = ground arith

leb-le : (a b : ℕ) → a ≤ b → leb a b ≡ true
leb-le a b h = ground arith

-- A label cut in units fits in 64 bytes only if cutting bytes gives the same.
cut_agrees :
    (full : Str)
    → length (utf8 (if ltb 64 (length full) then take 64 full else full)) ≤ 64
    → truncate_label (utf8 full) ≡ utf8 (if ltb 64 (length full) then take 64 full else full)
unfolding truncate_label
cut_agrees full h = elim (Bool-cases (ltb 64 (length full))) [
  | inr e ↦
      let h' : length (utf8 full) ≤ 64 = rw e at h in
      let short = leb-le (length (utf8 full)) 64 h' in rw (e, short) refl
  | inl e ↦
      let h' : length (utf8 (take 64 full)) ≤ 64 = rw e at h in
      let all : utf8 (take 64 full) ++ utf8 (drop 64 full) ≡ utf8 full =
        sym (utf8-append (take 64 full) (drop 64 full)) ∙ ap utf8 (take-append-drop 64 full) in
      let size : length (utf8 (take 64 full)) ≡ 64 =
        omega (arith, length-take 64 full, length-utf8 (take 64 full), ltb→lt 64 (length full) e) in
      let long : 64 < length (utf8 full) =
        omega (arith, length-utf8 full, ltb→lt 64 (length full) e) in
      let big = leb-lt (length (utf8 full)) 64 long in
      rw (e, big)
        (ap₂ take (sym size) (sym all)
          ∙ take-append_self (utf8 (take 64 full)) (utf8 (drop 64 full)))
]

utf8-join : (sep : Str) (ps : List Str) → All IsAscii ps → utf8 (join sep ps) ≡ join (utf8 sep) ps
unfolding join
utf8-join sep [] h = unfold utf8 in refl
utf8-join sep (s ∷ []) (p, h) = utf8-IsAscii s p
utf8-join sep (s ∷ t ∷ r) (p, h) =
    utf8-append (s ++ sep) (join sep (t ∷ r))
    ∙ ap₂ ◌++◌ (utf8-append s sep ∙ ap (◌++ utf8 sep) (utf8-IsAscii s p)) (utf8-join sep (t ∷ r) h)

utf8-label_separator : utf8 Compressors.label_separator ≡ label_separator
unfolding utf8 utf8_unit
utf8-label_separator = refl

IsAscii-append : (s t : Str) → IsAscii s → IsAscii t → IsAscii (s ++ t)
IsAscii-append [] t h h' = h'
IsAscii-append (c ∷ s) t (p, h) h' = (p, IsAscii-append s t h h')

IsSigned-IsAscii : (s : Str) → All IsSigned s → IsAscii s
IsSigned-IsAscii [] h = tt
IsSigned-IsAscii (c ∷ s) (p, h) = (omega arith, IsSigned-IsAscii s h)

-- The name, and the parts behind it.
abbrev joined : Str → Str → List Str → Str
joined sep name [] = name
joined sep name (p ∷ ps) = name ++ sep ++ join sep (p ∷ ps)

joined_lem :
    (sep name : Str) (ps : List Str)
    → (if ltb 0 (length ps) then name ++ sep ++ join sep ps else name) ≡ joined sep name ps
joined_lem sep name [] = ground arith
joined_lem sep name (p ∷ ps) = ground arith

utf8-joined :
    (name : Str) (ps : List Str)
    → IsAscii name
    → All IsAscii ps
    → utf8 (joined Compressors.label_separator name ps) ≡ joined label_separator name ps
utf8-joined name [] h a = utf8-IsAscii name h
utf8-joined name (p ∷ ps) h a =
    let sep = Compressors.label_separator in
    utf8-append (name ++ sep) (join sep (p ∷ ps))
    ∙ ap₂ ◌++◌ (utf8-append name sep ∙ ap₂ ◌++◌ (utf8-IsAscii name h) utf8-label_separator)
        (utf8-join sep (p ∷ ps) a ∙ ap (λ s. join s (p ∷ ps)) utf8-label_separator)

module _ {Num : Type 0} ⦃n : Numeric Num⦄ (j : JsonNumber Num n) where
  value_part-label_part :
      (k : Str) (w : Any Num) → IsPlain w → label_part k (sent j w) ≡ value_part j k (some w)
  unfolding value_part label_part sent
  value_part-label_part k (any_bool true) h = refl
  value_part-label_part k (any_bool false) h = refl
  value_part-label_part k (any_int z) h =
      ap (λ s. k ++ codes " " ++ s) (format_option_value-show j (any_int z) h)
  value_part-label_part k (any_string s) h =
      ap (λ s. k ++ codes " " ++ s) (format_option_value-show j (any_string s) h)
  value_part-label_part k any_nil h = elim h [ ]
  value_part-label_part k (any_float a) h = elim h [ ]

  value_part-IsAscii :
      (k : Str) (w : Any Num) → IsPlain w → IsAscii k → IsAscii (value_part j k (some w))
  unfolding value_part format_option_value
  value_part-IsAscii k (any_bool true) h a = a
  value_part-IsAscii k (any_bool false) h a = IsAscii-append k (codes " off") a (omega arith)
  value_part-IsAscii k (any_int z) h a =
      IsAscii-append (k ++ codes " ") (itoa z) (IsAscii-append k (codes " ") a (omega arith))
        (IsSigned-IsAscii (itoa z) (itoa-IsSigned z))
  value_part-IsAscii k (any_string s) h a =
      IsAscii-append (k ++ codes " ") s (IsAscii-append k (codes " ") a (omega arith)) h
  value_part-IsAscii k any_nil h a = elim h [ ]
  value_part-IsAscii k (any_float f) h a = elim h [ ]

  label_parts_agree :
      (front : Schema Num) (schema : ServerSchema Num) (values : ServerValues Num) (o : Values Num)
      (ks : List Str)
      → All IsAscii ks
      → ((k : Str) → In k ks → AgreesAt j front schema values o k)
      → (server_label_parts j ks schema values ≡ label_parts ks front o)
        × All IsAscii (server_label_parts j ks schema values)
  unfolding server_label_parts label_parts
  label_parts_agree front schema values o [] ascii a = (refl, tt)
  label_parts_agree front schema values o (k ∷ ks) (key, ascii) a =
      let here = a k (inl refl) in
      let ih = label_parts_agree front schema values o ks ascii (λ i m. a i (inr m)) in
      let changed = unchanged-is_default j front schema values o k here in
      let text =
        sym (value_part-label_part k here.value here.plain) ∙ ap (label_part k) (sym here.reads) in
      elim (Bool-cases (is_default (read k o) (get k front))) [
        | inl d ↦
            (rw (here.value_found, changed, d, ih.0) refl, rw (here.value_found, changed, d) (ih.1))
        | inr d ↦ (
          rw (here.value_found, changed, d, ih.0, text) refl,
          rw (here.value_found, changed, d) (value_part-IsAscii k here.value here.plain key, ih.1),
        )
      ]

  -- Where the server accepts the options of a request for a compressor of the registry's kind whose
  -- names are ASCII, and the front end's label takes at most 64 bytes of UTF-8, the server's label
  -- is that UTF-8. The schema of the front end has the keys and defaults of the server's, in any
  -- order, each key once.
  pub server_build_label-build_label :
      (name : Str) (front : Schema Num) (schema : ServerSchema Num) (provided : Values Num)
      (values : ServerValues Num)
      → Mirrors j front schema
      → IsObject front
      → IsObject schema
      → IsObject provided
      → All (λ e. IsRegistered e.1) schema
      → IsAscii name
      → All IsAscii (keys schema)
      → canonicalize_options j schema (received provided) ≡ ok values
      → length (utf8 (build_label name front (canonical_options front provided))) ≤ 64
      → server_build_label j name schema values
        ≡ utf8 (build_label name front (canonical_options front provided))
  unfolding server_build_label build_label
  server_build_label-build_label name front schema provided values m of os op r an ak h fits =
      let o = canonical_options front provided in
      let ks = sort str_lt (keys schema) in
      let inside = λ (k : Str) (i : In k ks). (In-sort str_lt k (keys schema)).0 i in
      let (same, ascii) =
        label_parts_agree front schema values o ks
          (All-of_In IsAscii ks (λ k i. All-In IsAscii (keys schema) k ak (inside k i)))
          (λ k i. agrees j front schema provided values m of os op r h k (inside k i)) in
      let names = sorted_names j front schema provided values m of os op r h in
      let sep = Compressors.label_separator in
      let parts = label_parts (sorted_keys front) front o in
      let whole =
        joined_lem label_separator name (server_label_parts j ks schema values)
        ∙ sym (utf8-joined name (server_label_parts j ks schema values) an ascii)
        ∙ ap (λ ps. utf8 (joined sep name ps)) (same ∙ ap (λ ks. label_parts ks front o) names)
        ∙ ap utf8 (sym (joined_lem sep name parts)) in
      ap truncate_label whole ∙ cut_agrees _ fits
