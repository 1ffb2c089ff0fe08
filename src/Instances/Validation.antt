-- ===== src/Instances/Validation.antt =====
-- What `validateInstances` accepts (lib/instances.ts).
use bit_bench.Prelude.{
  ◌≡◌, refl, inl, inr, none, List, [], ◌∷◌, Str, In, arith, ◌≤◌, ◌<◌, Bool-cases, Option-cases, sym,
  has, has_iff, ◌↔◌, length, AllDistinct,
}
use bit_bench.Options.{Numeric}
use bit_bench.Instances.{InstanceDraft, Registry, identity_of, first_duplicate, validate_instances}

module _ {Num : Type 0} ⦃n : Numeric Num⦄ (registry : Registry Num) (custom_names : List Str) where
  -- The identities of a list of instances.
  abbrev pub identities : List (InstanceDraft Num) → List Str
  identities [] = []
  identities (inst ∷ rest) = identity_of registry custom_names inst ∷ identities rest

  -- No element of the first list is in the second.
  abbrev pub NoneIn : List Str → List Str → Type 0
  NoneIn [] seen = Unit {0}
  NoneIn (x ∷ xs) seen = (¬ (In x seen)) × NoneIn xs seen

  NoneIn-cons :
      (y : Str) (xs seen : List Str) → NoneIn xs (y ∷ seen) ↔ ((¬ (In y xs)) × NoneIn xs seen)
  NoneIn-cons y [] seen = ((λ h. ((λ m. m), tt)), (λ h. tt))
  NoneIn-cons y (x ∷ xs) seen = (
    (λ (new, h).
        let (fresh, rest) = (NoneIn-cons y xs seen).0 h in
        (
          (λ m. elim m [ inl e ↦ new (inl (sym e)) | inr r ↦ fresh r ]),
          ((λ m. new (inr m)), rest),
        )),
    (λ (fresh, (new, rest)). (
      (λ m. elim m [ inl e ↦ fresh (inl (sym e)) | inr r ↦ new r ]),
      (NoneIn-cons y xs seen).1 ((λ m. fresh (inr m)), rest),
    )),
  )

  first_duplicate-eq-none_iff :
      (seen : List Str) (insts : List (InstanceDraft Num))
      → (first_duplicate registry custom_names seen insts ≡ none)
        ↔ (AllDistinct (identities insts) × NoneIn (identities insts) seen)
  unfolding first_duplicate
  first_duplicate-eq-none_iff seen [] = ((λ h. (tt, tt)), (λ h. refl))
  first_duplicate-eq-none_iff seen (inst ∷ rest) =
      let identity = identity_of registry custom_names inst in
      let (to, from) = first_duplicate-eq-none_iff (identity ∷ seen) rest in
      let (apart, together) = NoneIn-cons identity (identities rest) seen in
      elim (Bool-cases (has identity seen)) [
        | inl e ↦
            rw e ((λ h. cc), (λ ((_, _), (new, _)). absurd (new ((has_iff identity seen).0 e))))
        | inr e ↦ rw e (
          (λ h.
              let (distinct, none_in) = to h in
              let (fresh, rest_new) = apart none_in in
              ((fresh, distinct), ((λ m. cc (e, (has_iff identity seen).1 m)), rest_new))),
          (λ ((fresh, distinct), (new, rest_new)). from (distinct, together (fresh, rest_new))),
        )
      ]

  NoneIn-nil : (xs : List Str) → NoneIn xs []
  NoneIn-nil [] = tt
  NoneIn-nil (x ∷ xs) = ((λ m. m), NoneIn-nil xs)

  -- A list of instances is accepted exactly when it holds between 1 and 64 of them, with
  -- pairwise different identities.
  pub validate_instances-eq-none_iff :
      (insts : List (InstanceDraft Num))
      → (validate_instances insts registry custom_names ≡ none)
        ↔ ((0 < length insts) × (length insts ≤ 64) × AllDistinct (identities insts))
  unfolding validate_instances
  validate_instances-eq-none_iff insts =
      let (to, from) = first_duplicate-eq-none_iff [] insts in
      elim (Option-cases (first_duplicate registry custom_names [] insts)) [
        | inl e ↦
            let (distinct, _) = to e in
            rw e ((λ h. (ground arith, ground arith, distinct)), (λ h. ground arith))
        | inr (name, e) ↦ rw e (
          (λ h. absurd (ground arith)),
          (λ (_, _, distinct). cc (e, from (distinct, NoneIn-nil _))),
        )
      ]
