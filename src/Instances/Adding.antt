-- ===== src/Instances/Adding.antt =====
-- When another instance of a compressor may be added.
use bit_bench.Prelude.{
  ◌≡◌, refl, ◌≢◌, ◌⊎◌, inl, inr, List, [], ◌∷◌, ◌++◌, ℕ, Str, In, arith, ◌<◌, Bool, true, false,
  Bool-cases, ◌↔◌, ◌||◌, has, codes, str_eq, str_eq_iff, any, In-sort, str_lt,
}
use bit_bench.Objects.{get, keys}
use bit_bench.Options.{Numeric, Schema, Values}
use bit_bench.Instances.{
  native_options, name_encoded_options, encodes, invocation_parts, invocation_base,
  build_invocation, sorted_keys, has_variable_options, can_add_instance, instance_identity,
}

any-false :
    (test : Str → Bool) (ks : List Str) (k : Str) → any test ks ≡ false → In k ks → test k ≡ false
any-false test (x ∷ ks) k e (inl p) = rw p (ground arith)
any-false test (x ∷ ks) k e (inr m) = any-false test ks k (ground arith) m
any-false test [] k e m = elim m [ ]

module _ {Num : Type 0} ⦃n : Numeric Num⦄ where
  -- Another instance may be added exactly when fewer than 64 are configured, and the compressor
  -- is a custom package, has an option that changes the run, or is not configured yet.
  pub can_add_instance_iff :
      (name : Str) (schema : Schema Num) (is_custom : Bool) (current total : ℕ)
      → (can_add_instance name schema is_custom current total ≡ true) ↔ (
          (total < 64)
          × ((is_custom ≡ true) ⊎ (has_variable_options name schema ≡ true) ⊎ (current ≡ 0)))
  unfolding can_add_instance
  can_add_instance_iff name schema is_custom current total = ground arith

  no_parts :
      (ks : List Str) (schema : Schema Num) (o : Values Num)
      → ((k : Str) → In k ks → has k native_options ≡ false)
      → invocation_parts ks schema o ≡ []
  unfolding invocation_parts
  no_parts [] schema o h = refl
  no_parts (k ∷ ks) schema o h = rw (h k (inl refl)) (no_parts ks schema o (λ j m. h j (inr m)))

  not_native :
      (name : Str) (schema : Schema Num) (k : Str)
      → has_variable_options name schema ≡ false
      → In k (sorted_keys schema)
      → has k native_options ≡ false
  unfolding has_variable_options sorted_keys
  not_native name schema k h m =
      let e =
        any-false (λ key. has key native_options || encodes (get name name_encoded_options) key)
          (keys schema) k h ((In-sort str_lt k (keys schema)).0 m) in
      ground arith

  other_base :
      (name : Str) (options : Values Num)
      → name ≢ codes "pfordelta"
      → invocation_base name options ≡ name
  unfolding invocation_base
  other_base name options ne = elim (Bool-cases (str_eq name (codes "pfordelta"))) [
    | inl e ↦ absurd (ne ((str_eq_iff name (codes "pfordelta")).0 e))
    | inr e ↦ rw e
  ]

  -- A built-in compressor other than pfordelta with no option that changes the run has one
  -- identity, its name, whatever its options are: a second instance is always a duplicate.
  pub instance_identity-no_variable_options :
      (name : Str) (schema : Schema Num) (options : Values Num)
      → has_variable_options name schema ≡ false
      → name ≢ codes "pfordelta"
      → instance_identity name schema options false ≡ codes "builtin:" ++ name
  unfolding instance_identity build_invocation
  instance_identity-no_variable_options name schema options h ne =
      rw (no_parts (sorted_keys schema) schema options (λ k m. not_native name schema k h m))
        (rw (other_base name options ne) (ground arith))
