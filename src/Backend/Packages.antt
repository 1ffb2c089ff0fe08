-- ===== src/Backend/Packages.antt =====
-- The defaults of a package's number options. They come out of the JSON of its spec as float64, and
-- a value that is sent becomes an int: the server takes the two for different.
use bit_bench.Prelude.{
  ◌≡◌, refl, some, [], ◌∷◌, ◌++◌, true, false, sym, if◌then◌else◌, Str, codes, str_eq, str_eq_iff,
  str_eq_refl, sort, insert, length, ltb, take, join,
}
use bit_bench.Prelude.Int.{itoa}
use bit_bench.Objects.{get, put}
use bit_bench.Options.{Numeric, num, CompressorOption, read}
use bit_bench.Options.Laws.{value_eq_iff, read_of_get}
use bit_bench.Instances.{build_label, label_parts, is_default, sorted_keys}
use bit_bench.Backend.{
  ok, JsonNumber, Any, any_int, any_float, ServerOption, ServerValues, below, above, within_bounds,
  coerce_float, coerce_number, coerce_option, option_value, canonicalize_from, canonicalize_options,
}
use bit_bench.Backend.Naming.{
  any_eq, unchanged, value_part, format_option_value, server_label_parts, truncate_label,
  label_separator, server_build_label,
}
use bit_bench.Backend.Wire.{receive, received, add_received, get-cons_same}
use bit_bench.Backend.Coercion.{IsNumeric}

module _ {Num : Type 0} ⦃n : Numeric Num⦄ (j : JsonNumber Num n) where
  accepts_default :
      (key : Str) (opt : ServerOption Num) (a : Num)
      → IsNumeric opt
      → j.is_whole a ≡ true
      → below opt.min (j.to_int a) ≡ false
      → above opt.max (j.to_int a) ≡ false
      → option_value j key opt (some (any_float a)) ≡ ok (any_int (j.to_int a))
  unfolding option_value coerce_option coerce_number coerce_float within_bounds
  accepts_default key opt a t whole lo hi =
      let number : str_eq opt.type (codes "number") ≡ true = (str_eq_iff _ _).1 t in
      rw (number, whole, lo, hi) refl

  canonicalized_default :
      (key : Str) (opt : ServerOption Num) (a : Num) (v : Any Num)
      → option_value j key opt (some (any_float a)) ≡ ok v
      → canonicalize_options j ((key, opt) ∷ []) (received ((key, num a) ∷ [])) ≡ ok ((key, v) ∷ [])
  unfolding canonicalize_options canonicalize_from received receive add_received get put
  canonicalized_default key opt a v h = rw (str_eq_refl key, h) refl

  differs_from_default :
      (opt : ServerOption Num) (a : Num)
      → opt.initial ≡ any_float a
      → unchanged j (some (any_int (j.to_int a))) (some opt) ≡ false
  unfolding unchanged any_eq
  differs_from_default opt a e = rw e refl

  shown_default :
      (pkg key : Str) (opt : ServerOption Num) (a : Num)
      → opt.initial ≡ any_float a
      → server_build_label j pkg ((key, opt) ∷ []) ((key, any_int (j.to_int a)) ∷ [])
        ≡ truncate_label (pkg ++ label_separator ++ (key ++ codes " " ++ itoa (j.to_int a)))
  unfolding server_build_label server_label_parts sort insert get value_part format_option_value
      join
  shown_default pkg key opt a e = rw (str_eq_refl key, differs_from_default opt a e) refl

  reads_default :
      (key : Str) (opt : CompressorOption Num) (a : Num)
      → opt.initial ≡ num a
      → is_default (read key ((key, num a) ∷ [])) (some opt) ≡ true
  unfolding is_default
  reads_default key opt a e =
      rw
        (read_of_get key ((key, num a) ∷ []) (num a)
          (get-cons_same key key (num a) [] (str_eq_refl key)))
        ((value_eq_iff (num a) opt.initial).1 (sym e))

  hidden_default :
      (pkg key : Str) (opt : CompressorOption Num) (a : Num)
      → opt.initial ≡ num a
      → build_label pkg ((key, opt) ∷ []) ((key, num a) ∷ [])
        ≡ (if ltb 64 (length pkg) then take 64 pkg else pkg)
  unfolding build_label label_parts sorted_keys sort insert get
  hidden_default pkg key opt a e = rw (str_eq_refl key, reads_default key opt a e) refl

  -- A package has one option, a number whose default came out of JSON. Sent with that default, a
  -- whole number within the option's bounds, the front end's label is the package's name, while
  -- the server accepts the option and puts it in its label; both labels are cut at their limit.
  pub server_build_label-default :
      (pkg key : Str) (opt : ServerOption Num) (front : CompressorOption Num) (a : Num)
      → IsNumeric opt
      → opt.initial ≡ any_float a
      → front.initial ≡ num a
      → j.is_whole a ≡ true
      → below opt.min (j.to_int a) ≡ false
      → above opt.max (j.to_int a) ≡ false
      → (build_label pkg ((key, front) ∷ []) ((key, num a) ∷ [])
          ≡ (if ltb 64 (length pkg) then take 64 pkg else pkg))
        × ((values : ServerValues Num) × (canonicalize_options j
                ((key, opt) ∷ [])
                (received ((key, num a) ∷ []))
              ≡ ok values)
            × (server_build_label j pkg ((key, opt) ∷ []) values
                ≡ truncate_label
                    (pkg ++ label_separator ++ (key ++ codes " " ++ itoa (j.to_int a)))))
  server_build_label-default pkg key opt front a t e e' whole lo hi = (
    hidden_default pkg key front a e',
    (
      (key, any_int (j.to_int a)) ∷ [],
      canonicalized_default key opt a (any_int (j.to_int a))
          (accepts_default key opt a t whole lo hi),
      shown_default pkg key opt a e,
    ),
  )
