-- ===== src/Backend/Duplicates.antt =====
-- The server refuses the built-in configurations that the front end refuses.
use bit_bench.Prelude.{
  ◌≡◌, refl, inl, inr, ◌↔◌, Option, none, some, List, [], ◌∷◌, ◌++◌, true, false, ap, sym, ◌∙◌,
  Bool-cases, Str, codes, str_eq, has, map, All, length, ltb, ◌==◌, arith, length-map,
}
use bit_bench.Objects.{get, IsObject}
use bit_bench.Options.{Numeric, canonical_options}
use bit_bench.Instances.{
  InstanceDraft, Registry, schema_of, instance_identity, identity_of, first_duplicate,
  duplicate_error, validate_instances,
}
use bit_bench.Backend.Strings.{trim_space, go_lower}
use bit_bench.Backend.{ok, error, ServerSchema, ServerValues, canonicalize_options}
use bit_bench.Backend.Naming.{server_build_invocation, server_build_label}
use bit_bench.Backend.Wire.{received, Mirrors}
use bit_bench.Backend.Plain.{IsRegistered}
use bit_bench.Backend.Invocation.{server_build_invocation-build_invocation}
use bit_bench.Backend.Coercion.{>>=-eq-ok}
use bit_bench.Backend.Unique.{with_unique_label-total}
use bit_bench.Backend.Resolve.{
  Instance, ResolvedInstance, Seen, Server, duplicate_configuration, labelled, remember,
  find_compressor, canonicalized, resolve_named, platform_of, runs_emulated, resolve_one,
  resolve_from, resolve_instances,
}

str_eq-prefix : (p x y : Str) → str_eq (p ++ x) (p ++ y) ≡ str_eq x y
unfolding str_eq
str_eq-prefix [] x y = refl
str_eq-prefix (c ∷ p) x y = ground (arith, str_eq-prefix p x y)

has-prefix : (p x : Str) (xs : List Str) → has (p ++ x) (map (p ++◌) xs) ≡ has x xs
unfolding has
has-prefix p x [] = refl
has-prefix p x (y ∷ ys) = rw (has-prefix p x ys, str_eq-prefix p x y)

not_both : {E A : Type 0} (e : E) (a : A) → error e ≡ ok a → ⊥
not_both e a h = cc

duplicate_error_iff : (o : Option Str) → (duplicate_error o ≡ none) ↔ (o ≡ none)
unfolding duplicate_error
duplicate_error_iff none = ground arith
duplicate_error_iff (some x) = ground arith

some-is-none : {A : Type 0} (x : A) → some x ≡ none → ⊥
some-is-none x h = cc

-- The draft as the server receives it.
abbrev pub request : {Num : Type 0} → InstanceDraft Num → Instance Num
request d = record { name = d.name; options = received d.options }

-- The draft with its canonical options.
abbrev pub canonical : {Num : Type 0} → Registry Num → InstanceDraft Num → InstanceDraft Num
canonical front d = record {
  name = d.name;
  options = canonical_options (schema_of d.name front) d.options;
}

module _ {Num : Type 0} ⦃n : Numeric Num⦄ (s : Server Num n) (front : Registry Num)
    (custom_names : List Str) where
  -- A draft of a built-in compressor, by its name in lower case and trimmed, whose options the
  -- server accepts; the front end has the keys and defaults of the server's schema.
  pub record IsAccepted (d : InstanceDraft Num) : Type 0 where
    pub schema : ServerSchema Num
    pub values : ServerValues Num
    pub lower : go_lower s.lower d.name ≡ d.name
    pub trimmed : trim_space d.name ≡ d.name
    pub named : str_eq d.name [] ≡ false
    pub built_in : get d.name s.registry ≡ some schema
    pub not_custom : has d.name custom_names ≡ false
    pub mirrors : Mirrors s.numbers (schema_of d.name front) schema
    pub front_object : IsObject (schema_of d.name front)
    pub schema_object : IsObject schema
    pub options_object : IsObject d.options
    pub registered : All (λ e. IsRegistered e.1) schema
    pub accepted : canonicalize_options s.numbers schema (received d.options) ≡ ok values

  module _ (d : InstanceDraft Num) (a : IsAccepted d) where
    invocation : Str
    invocation = server_build_invocation s.numbers d.name a.schema a.values

    -- The front end tells the configuration apart by the server's invocation.
    identity_of-canonical :
        identity_of front custom_names (canonical front d) ≡ codes "builtin:" ++ invocation
    unfolding identity_of instance_identity invocation
    identity_of-canonical = rw a.not_custom (
        ap (codes "builtin:" ++◌) (
          sym (
            server_build_invocation-build_invocation s.numbers d.name (schema_of d.name front)
              a.schema d.options a.values a.mirrors a.front_object a.schema_object a.options_object
              a.registered a.accepted)))

    named_before :
        (seen : Seen)
        → resolve_one s (request d) seen ≡ resolve_named s d.name (received d.options) seen
    unfolding resolve_one
    named_before seen = rw (a.trimmed, a.lower, a.named) refl

    found_built_in : find_compressor s d.name ≡ ok (record { schema = a.schema; spec = none })
    unfolding find_compressor
    found_built_in =
        let e : get (go_lower s.lower d.name) s.registry ≡ some a.schema =
          ap (λ k. get k s.registry) a.lower ∙ a.built_in in
        rw (e, find_compressor)

    resolve_one-duplicate :
        (seen : Seen)
        → has invocation seen.seen_builtin ≡ true
        → resolve_one s (request d) seen ≡ error (duplicate_configuration d.name)
    unfolding resolve_named canonicalized remember invocation
    resolve_one-duplicate seen h = named_before seen ∙ rw (found_built_in, a.accepted, h) refl

    resolve_one-new :
        (seen : Seen)
        → has invocation seen.seen_builtin ≡ false
        → (seen' : Seen) × (r : ResolvedInstance Num) × (resolve_one s (request d) seen
            ≡ ok (seen', r))
          × (seen'.seen_builtin ≡ invocation ∷ seen.seen_builtin)
    unfolding resolve_named canonicalized remember invocation labelled platform_of runs_emulated
    resolve_one-new seen h =
        let (new, e) =
          with_unique_label-total (server_build_label s.numbers d.name a.schema a.values)
            seen.taken_labels in
        (
          record {
            taken_labels = new ∷ seen.taken_labels;
            seen_builtin = invocation ∷ seen.seen_builtin;
            seen_custom = seen.seen_custom;
          },
          record {
            name = d.name;
            options = a.values;
            label = new;
            platform = none;
            emulated = false;
          },
          named_before seen ∙ rw (found_built_in, a.accepted, h, e) refl,
          refl,
        )

  -- The identities that the front end has seen where the server has seen these invocations.
  abbrev identities_seen : List Str → List Str
  identities_seen invocations = map (codes "builtin:" ++◌) invocations

  duplicate_here :
      (d : InstanceDraft Num) (a : IsAccepted d) (seen : List Str)
      → has (identity_of front custom_names (canonical front d)) (identities_seen seen)
        ≡ has (invocation d a) seen
  duplicate_here d a seen =
      rw (identity_of-canonical d a) (has-prefix (codes "builtin:") (invocation d a) seen)

  Succeeds : List (InstanceDraft Num) → Seen → Type 0
  Succeeds ds seen =
      (rs : List (ResolvedInstance Num)) × (resolve_from s seen (map request ds) ≡ ok rs)

  resolve_from-first_duplicate :
      (ds : List (InstanceDraft Num)) (seen : Seen)
      → All IsAccepted ds
      → Succeeds ds seen ↔ (
          first_duplicate front custom_names
            (identities_seen seen.seen_builtin)
            (map (canonical front) ds)
          ≡ none)
  unfolding Succeeds resolve_from first_duplicate
  resolve_from-first_duplicate [] seen h = ((λ _. refl), (λ _. ([], refl)))
  resolve_from-first_duplicate (d ∷ ds) seen (a, h) =
      elim (Bool-cases (has (invocation d a) seen.seen_builtin)) [
        | inl e ↦
            let here = duplicate_here d a seen.seen_builtin ∙ e in
            let stop = resolve_one-duplicate d a seen e in
            (
              (λ ((rs, r) : Succeeds (d ∷ ds) seen). absurd (not_both _ rs (rw stop at r))),
              (λ q. absurd (some-is-none d.name (rw here at q))),
            )
        | inr e ↦
            let here = duplicate_here d a seen.seen_builtin ∙ e in
            let (seen', r, step, grown) = resolve_one-new d a seen e in
            let ih = resolve_from-first_duplicate ds seen' h in
            let same : identities_seen seen'.seen_builtin
                ≡ identity_of front custom_names (canonical front d)
                  ∷ identities_seen seen.seen_builtin =
              ap identities_seen grown
              ∙ ap (λ i. i ∷ identities_seen seen.seen_builtin) (sym (identity_of-canonical d a)) in
            (
              (λ ((rs, q) : Succeeds (d ∷ ds) seen). rw here (
                  rw same at (
                    ih.0 (
                      let (more, p, _) =
                        >>=-eq-ok (resolve_from s seen' (map request ds)) _ rs (rw step at q) in
                      (more, p))))),
              (λ q.
                  let (more, p) = ih.1 (rw (sym same) at (rw here at q)) in
                  (r ∷ more, rw (step, p) refl)),
            )
      ]

  abbrev pub IsResolved : List (InstanceDraft Num) → Type 0
  IsResolved ds =
      (rs : List (ResolvedInstance Num)) × (resolve_instances s (map request ds) ≡ ok rs)

  -- For drafts of built-in compressors whose options the server accepts, the server resolves the
  -- request exactly when the front end finds nothing wrong with their canonical options.
  pub resolve_instances-validate_instances :
      (ds : List (InstanceDraft Num))
      → All IsAccepted ds
      → ((rs : List (ResolvedInstance Num)) × (resolve_instances s (map request ds) ≡ ok rs))
        ↔ (validate_instances (map (canonical front) ds) front custom_names ≡ none)
  unfolding resolve_instances validate_instances Succeeds
  resolve_instances-validate_instances ds h =
      let core =
        resolve_from-first_duplicate ds
          (record { taken_labels = []; seen_builtin = []; seen_custom = [] }) h in
      let sent_all = length-map ds request in
      let shown_all = length-map ds (canonical front) in
      elim (Bool-cases (length ds == 0)) [
        | inl e ↦ (
          (λ ((rs, q) : IsResolved ds). absurd (not_both _ rs (rw (sent_all, e) at q))),
          (λ q. absurd (some-is-none _ (rw (shown_all, e) at q))),
        )
        | inr e ↦ elim (Bool-cases (ltb 64 (length ds))) [
          | inl l ↦ (
            (λ ((rs, q) : IsResolved ds). absurd (not_both _ rs (rw (sent_all, e, l) at q))),
            (λ q. absurd (some-is-none _ (rw (shown_all, e, l) at q))),
          )
          | inr l ↦ (
            (λ ((rs, q) : IsResolved ds).
                rw (shown_all, e, l)
                  ((duplicate_error_iff _).1 (core.0 (rs, rw (sent_all, e, l) at q)))),
            (λ q.
                let (rs, p) = core.1 ((duplicate_error_iff _).0 (rw (shown_all, e, l) at q)) in
                (rs, rw (sent_all, e, l) p)),
          )
        ]
      ]
