-- ===== src/Objects.antt =====
-- JavaScript objects used as dictionaries (`Record<string, T>`), as association lists in the order
-- of insertion. A key that spells an array index, which JavaScript moves to the front, and the
-- inherited names of `Object.prototype` are left out.
pub mod Laws
use bit_bench.Prelude.{
  ◌≡◌, Option, none, some, List, [], ◌∷◌, map, Str, str_eq, if◌then◌else◌, AllDistinct,
}

abbrev pub Object : Type 0 → Type 0
Object A = List (Str × A)

module _ {A : Type 0} where
  -- `Object.keys(o)`
  abbrev pub keys : Object A → List Str
  keys [] = []
  keys ((k, v) ∷ o) = k ∷ keys o

  -- `o[k]`, with `none` for a missing key
  unfoldable pub get : Str → Object A → Option A
  get k [] = none
  get k ((j, v) ∷ o) = if str_eq k j then some v else get k o

  -- `o[k] = v`
  unfoldable pub put : Str → A → Object A → Object A
  put k v [] = (k, v) ∷ []
  put k v ((j, w) ∷ o) = if str_eq k j then (j, v) ∷ o else (j, w) ∷ put k v o

  -- An object holds each key once.
  abbrev pub IsObject : Object A → Type 0
  IsObject o = AllDistinct (keys o)
