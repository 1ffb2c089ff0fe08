-- ===== src/Backend/Wire.antt =====
-- The JSON that the front end and the server exchange: options one way, schemas and values the
-- other way.
use bit_bench.Prelude.{
  ◌≡◌, refl, inl, inr, Option, none, some, [], ◌∷◌, ap, sym, ◌∙◌, Bool-cases, Str, codes, str_eq,
  str_eq_iff, In, true, false,
}
use mathlib.Core.Option
use bit_bench.Prelude.Int.{ℤ}
use bit_bench.Objects.{Object, keys, get, IsObject}
use bit_bench.Objects.Laws.{get-none}
use bit_bench.Options.{
  Numeric, Value, undefined, null, bool, num, str, CompressorOption, Schema, Values, read,
}
use bit_bench.Options.Laws.{read_of_get}
use bit_bench.Backend.{
  IsSafe, JsonNumber, Any, any_nil, any_bool, any_int, any_float, any_string, ServerOption,
  ServerSchema, ServerValues,
}

-- A value as `json.Unmarshal` finds it in a request: `JSON.stringify` leaves out `undefined`.
unfoldable pub receive : {Num : Type 0} → Value Num → Option (Any Num)
receive undefined = none
receive null = some any_nil
receive (bool b) = some (any_bool b)
receive (num a) = some (any_float a)
receive (str s) = some (any_string s)

unfoldable pub add_received :
    {Num : Type 0} → Str → Option (Any Num) → ServerValues Num → ServerValues Num
add_received k none o = o
add_received k (some v) o = (k, v) ∷ o

-- The options of a request as the server reads them.
unfoldable pub received : {Num : Type 0} → Values Num → ServerValues Num
unfolding receive add_received
received [] = []
received ((k, v) ∷ o) = add_received k (receive v) (received o)

In-keys-received :
    {Num : Type 0} (k : Str) (o : Values Num) → In k (keys (received o)) → In k (keys o)
unfolding received add_received receive
In-keys-received k [] m = m
In-keys-received k ((j, undefined) ∷ o) m = inr (In-keys-received k o m)
In-keys-received k ((j, null) ∷ o) (inl e) = inl e
In-keys-received k ((j, null) ∷ o) (inr m) = inr (In-keys-received k o m)
In-keys-received k ((j, bool b) ∷ o) (inl e) = inl e
In-keys-received k ((j, bool b) ∷ o) (inr m) = inr (In-keys-received k o m)
In-keys-received k ((j, num a) ∷ o) (inl e) = inl e
In-keys-received k ((j, num a) ∷ o) (inr m) = inr (In-keys-received k o m)
In-keys-received k ((j, str s) ∷ o) (inl e) = inl e
In-keys-received k ((j, str s) ∷ o) (inr m) = inr (In-keys-received k o m)

get-add_received :
    {Num : Type 0} (k j : Str) (v : Value Num) (o : ServerValues Num)
    → get k o ≡ none
    → str_eq k j ≡ true
    → get k (add_received j (receive v) o) ≡ receive v
unfolding get add_received receive
get-add_received k j undefined o h e = h
get-add_received k j null o h e = rw e
get-add_received k j (bool b) o h e = rw e
get-add_received k j (num a) o h e = rw e
get-add_received k j (str s) o h e = rw e

get-add_received_other :
    {Num : Type 0} (k j : Str) (v : Option (Any Num)) (o : ServerValues Num)
    → str_eq k j ≡ false
    → get k (add_received j v o) ≡ get k o
unfolding get add_received
get-add_received_other k j none o e = refl
get-add_received_other k j (some v) o e = rw e

pub get-cons_other :
    {A : Type 0} (k j : Str) (v : A) (o : Object A)
    → str_eq k j ≡ false
    → get k ((j, v) ∷ o) ≡ get k o
unfolding get
get-cons_other k j v o e = rw e

read-cons_other :
    {Num : Type 0} (k j : Str) (v : Value Num) (o : Values Num)
    → str_eq k j ≡ false
    → read k ((j, v) ∷ o) ≡ read k o
unfolding read
read-cons_other k j v o e = rw (get-cons_other k j v o e, read)

pub get-cons_same :
    {A : Type 0} (k j : Str) (v : A) (o : Object A)
    → str_eq k j ≡ true
    → get k ((j, v) ∷ o) ≡ some v
unfolding get
get-cons_same k j v o e = rw e

-- The server reads under each key what the front end has there.
pub get-received :
    {Num : Type 0} (k : Str) (o : Values Num) → IsObject o → get k (received o) ≡ receive (read k o)
unfolding received
get-received k [] h = unfold receive read get in refl
get-received k ((j, v) ∷ o) (new, h) = elim (Bool-cases (str_eq k j)) [
  | inl e ↦
      let same = (str_eq_iff k j).0 e in
      get-add_received k j v (received o)
        (get-none k (received o) (λ m. new (rw same at (In-keys-received k o m)))) e
      ∙ ap receive (sym (read_of_get k ((j, v) ∷ o) v (get-cons_same k j v o e)))
  | inr e ↦
      get-add_received_other k j (receive v) (received o) e
      ∙ get-received k o h
      ∙ ap receive (sym (read-cons_other k j v o e))
]

module _ {Num : Type 0} ⦃n : Numeric Num⦄ (j : JsonNumber Num n) where
  -- A value as the front end reads it from the server's JSON.
  unfoldable pub sent : Any Num → Value Num
  sent any_nil = null
  sent (any_bool b) = bool b
  sent (any_int z) = num (j.of_int z)
  sent (any_float a) = num a
  sent (any_string s) = str s

  -- The schema that the front end got from the server: the keys and their defaults, in any order.
  abbrev pub Mirrors : Schema Num → ServerSchema Num → Type 0
  Mirrors front schema =
      (k : Str)
      → Option.map (λ (o : CompressorOption Num). o.initial) (get k front)
        ≡ Option.map (λ (o : ServerOption Num). sent o.initial) (get k schema)

-- A number option has bounds, of at most 2^53 either side of zero, as every one of the registry.
abbrev pub IsBounded : {Num : Type 0} → ServerOption Num → Type 0
IsBounded o =
    o.type ≡ codes "number"
    → (lo : ℤ) × (hi : ℤ) × (o.min ≡ some lo) × (o.max ≡ some hi) × IsSafe lo × IsSafe hi
