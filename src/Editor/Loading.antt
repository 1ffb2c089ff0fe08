-- ===== src/Editor/Loading.antt =====
-- What a stored configuration becomes in the page.
use bit_bench.Prelude.{
  ℕ, zero, suc, ◌≡◌, refl, inl, inr, Option, none, some, List, [], ◌∷◌, false, All, take, Str,
  Bool-cases, if◌then◌else◌, ◌==◌, length, str_eq, ◌≢◌, arith, subst, sym, codes,
}
use bit_bench.Objects.{IsObject, get, keys}
use bit_bench.Options.{Schema, canonical_options}
use bit_bench.Options.Laws.{canonical_options_idempotent}
use bit_bench.Instances.{InstanceDraft, Registry}
use bit_bench.Editor.{CompressorInstance, EditorState, drafts_of, apply_instances, options_of}

All-take : {A : Type 0} (P : A → Type 0) (n : ℕ) (xs : List A) → All P xs → All P (take n xs)
All-take P zero xs h = tt
All-take P (suc n) [] h = tt
All-take P (suc n) (x ∷ xs) (p, h) = (p, All-take P n xs h)

module _ {Num : Type 0} where
  -- The compressor is in the registry, and its options are canonical for its schema.
  abbrev pub IsCanonical : Registry Num → InstanceDraft Num → Type 0
  IsCanonical registry inst =
      (schema : Schema Num) × (get inst.name registry ≡ some schema)
      × (canonical_options schema inst.options ≡ inst.options)

  -- Every schema of the registry is an object.
  abbrev pub AllObjects : Registry Num → Type 0
  AllObjects registry = All (λ e. IsObject e.1) registry

  found_IsObject :
      (registry : Registry Num) (name : Str) (schema : Schema Num)
      → AllObjects registry
      → get name registry ≡ some schema
      → IsObject schema
  unfolding get
  found_IsObject [] name schema h found = cc
  found_IsObject ((k, first) ∷ registry) name schema (object, h) found =
      elim (Bool-cases (str_eq name k)) [
        | inl e ↦ let same : first ≡ schema = ground (arith, found) in subst IsObject same object
        | inr e ↦ found_IsObject registry name schema h (rw e at found)
      ]

  drafts_of-IsCanonical :
      (registry : Registry Num) (incoming : List (CompressorInstance Num))
      → AllObjects registry
      → All (IsCanonical registry) (drafts_of registry incoming)
  unfolding drafts_of
  drafts_of-IsCanonical registry [] objects = tt
  drafts_of-IsCanonical registry (item ∷ incoming) objects =
      draft (get item.name registry) refl (drafts_of-IsCanonical registry incoming objects)
    where
      draft :
          (found : Option (Schema Num))
          → get item.name registry ≡ found
          → All (IsCanonical registry) (drafts_of registry incoming)
          → All (IsCanonical registry) (elim found [
            | none ↦ drafts_of registry incoming
            | some schema ↦
                record {
                  name = item.name;
                  options = canonical_options schema (options_of item.options);
                }
                ∷ drafts_of registry incoming
          ])
      draft none e rest = rest
      draft (some schema) e rest = (
        (
          schema,
          e,
          canonical_options_idempotent schema (options_of item.options)
              (found_IsObject registry item.name schema objects e),
        ),
        rest,
      )

  -- Once the compressor list is there, with schemas that hold each key once, loading a stored configuration leaves only instances of
  -- compressors in the list, each with options that are canonical for its schema.
  pub apply_instances-IsCanonical :
      (registry : Registry Num) (incoming : List (CompressorInstance Num)) (s : EditorState Num)
      → AllObjects registry
      → registry ≢ []
      → All (IsCanonical registry) (apply_instances registry incoming s).instances
  unfolding apply_instances
  apply_instances-IsCanonical [] incoming s objects ne = absurd (ne refl)
  apply_instances-IsCanonical (entry ∷ registry) incoming s objects ne =
      let there : (length (keys (entry ∷ registry)) == 0) ≡ false = ground arith in
      subst
        (λ b.
          All (IsCanonical (entry ∷ registry))
            (if b
              then record s {
                preset_error =
                    codes "The compressor list is still loading — try again in a moment.";
              }
              else record s {
                instances = take 64 (drafts_of (entry ∷ registry) incoming);
                expanded_instance = none;
                error = [];
              }).instances)
        (sym there)
        (All-take (IsCanonical (entry ∷ registry)) 64 (drafts_of (entry ∷ registry) incoming)
          (drafts_of-IsCanonical (entry ∷ registry) incoming objects))
