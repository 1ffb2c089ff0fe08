-- ===== src/Backend/Canonical.antt =====
-- The server's canonical options against the front end's.
use bit_bench.Prelude.{
  ◌≡◌, refl, inl, inr, Option, none, some, [], ◌∷◌, ap, sym, ◌∙◌, Bool-cases, Str, str_eq,
  str_eq_iff, All, subst,
}
use mathlib.Core.Option
use bit_bench.Objects.{get, put, IsObject}
use bit_bench.Objects.Laws.{get-put, get-none, All-get}
use bit_bench.Options.{
  Numeric, Value, CompressorOption, Schema, Values, read, or_default, canonical_options,
}
use bit_bench.Options.Laws.{chosen, get-canonical_options-chosen}
use bit_bench.Backend.{
  ok, JsonNumber, Any, ServerOption, ServerSchema, ServerValues, option_value, canonicalize_from,
  canonicalize_options,
}
use bit_bench.Backend.Wire.{
  get-cons_same, get-cons_other, receive, received, get-received, sent, Mirrors, IsBounded,
}
use bit_bench.Backend.Coercion.{>>=-eq-ok, value_of, value_or_nil, option_value-ok}

module _ {Num : Type 0} ⦃n : Numeric Num⦄ (j : JsonNumber Num n) where
  -- What the server's map holds under a key: the accepted value, for a key of the schema.
  abbrev pub Holds :
      Str
      → Option (ServerOption Num)
      → Option (Any Num)
      → Option (Any Num)
      → Option (Any Num)
      → Type 0
  Holds k none raw before now = now ≡ before
  Holds k (some opt) raw before now =
      (v : Any Num) × (option_value j k opt raw ≡ ok v) × (now ≡ some v)

  Holds-here :
      (k name : Str) (opt : ServerOption Num) (rest : ServerSchema Num)
      (provided values done : ServerValues Num) (v : Any Num)
      → k ≡ name
      → option_value j name opt (get name provided) ≡ ok v
      → get k values ≡ get k (put name v done)
      → Holds k (get k ((name, opt) ∷ rest)) (get k provided) (get k done) (get k values)
  Holds-here k name opt rest provided values done v same e h =
      let eq = (str_eq_iff k name).1 same in
      rw (get-cons_same k name opt rest eq) (v, rw same e, h ∙ get-put k name v done ∙ rw eq refl)

  get-canonicalize_from :
      (schema : ServerSchema Num) (done provided values : ServerValues Num) (k : Str)
      → IsObject schema
      → canonicalize_from j done schema provided ≡ ok values
      → Holds k (get k schema) (get k provided) (get k done) (get k values)
  unfolding canonicalize_from
  get-canonicalize_from [] done provided values k object h =
      unfold get in ap (λ m. get k (value_of done m)) (sym h)
  get-canonicalize_from ((name, opt) ∷ rest) done provided values k (new, object) h =
      let (v, e, h') = >>=-eq-ok (option_value j name opt (get name provided)) _ values h in
      let ih = get-canonicalize_from rest (put name v done) provided values k object h' in
      elim (Bool-cases (str_eq k name)) [
        | inl eq ↦
            let same = (str_eq_iff k name).0 eq in
            Holds-here k name opt rest provided values done v same e
              (rw (get-none k rest (λ m. new (rw same at m))) at ih)
        | inr ne ↦ rw (get-cons_other k name opt rest ne) (
            subst (λ o. Holds k (get k rest) (get k provided) o (get k values))
              (get-put k name v done ∙ rw ne refl) ih)
      ]

  keeps_chosen :
      (k : Str) (front : Option (CompressorOption Num)) (opt : Option (ServerOption Num))
      (raw : Value Num) (now : Option (Any Num))
      → Option.map (λ (o : CompressorOption Num). o.initial) front
        ≡ Option.map (λ (o : ServerOption Num). sent j o.initial) opt
      → ((o : ServerOption Num) → opt ≡ some o → IsBounded o)
      → Holds k opt (receive raw) none now
      → Option.map (sent j) now ≡ chosen front raw
  keeps_chosen k none none raw now m b h = ap (Option.map (sent j)) h
  keeps_chosen k (some f) (some o) raw now m b (v, e, h) =
      ap (Option.map (sent j)) h
      ∙ ap some (
          option_value-ok j k o raw v (b o refl) e
          ∙ ap (or_default raw) (sym (ap (value_or_nil) m)))
  keeps_chosen k none (some o) raw now m b h = cc
  keeps_chosen k (some f) none raw now m b h = cc

  pub Holds-canonicalize_options :
      (schema : ServerSchema Num) (provided values : ServerValues Num) (k : Str)
      → IsObject schema
      → canonicalize_options j schema provided ≡ ok values
      → Holds k (get k schema) (get k provided) none (get k values)
  unfolding canonicalize_options
  Holds-canonicalize_options schema provided values k object h =
      unfold get in get-canonicalize_from schema [] provided values k object h

  -- Where the server accepts the options of a request, it reads under each key what the front
  -- end's canonical options hold there. The schema of the front end has the keys and defaults of
  -- the server's, in any order, each key once; every number option has bounds of at most 2^53.
  pub canonicalize_options-canonical_options :
      (front : Schema Num) (schema : ServerSchema Num) (provided : Values Num)
      (values : ServerValues Num) (k : Str)
      → Mirrors j front schema
      → IsObject front
      → IsObject schema
      → IsObject provided
      → All (λ e. IsBounded e.1) schema
      → canonicalize_options j schema (received provided) ≡ ok values
      → Option.map (sent j) (get k values) ≡ get k (canonical_options front provided)
  canonicalize_options-canonical_options front schema provided values k mirrors of os op bounded h =
      keeps_chosen k (get k front) (get k schema) (read k provided) (get k values) (mirrors k)
        (λ o found. All-get (λ e. IsBounded e.1) k schema o bounded found)
        (rw (get-received k provided op) at
          (Holds-canonicalize_options schema (received provided) values k os h))
      ∙ sym (get-canonical_options-chosen front provided k of)
