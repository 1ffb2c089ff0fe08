-- ===== src/Instances/Blame.antt =====
-- Which instance a refused list of instances is refused for.
use bit_bench.Prelude.{
  ◌≡◌, refl, ◌⊎◌, inl, inr, some, List, [], ◌∷◌, ◌++◌, Str, In, arith, Bool-cases, Option-cases, ap,
  ◌∙◌, has, has_iff,
}
use bit_bench.Options.{Numeric}
use bit_bench.Instances.{
  InstanceDraft, Registry, identity_of, first_duplicate, duplicate, validate_instances,
}
use bit_bench.Instances.Validation.{identities}

module _ {Num : Type 0} ⦃n : Numeric Num⦄ (registry : Registry Num) (custom_names : List Str) where
  -- An instance of this name stands in the list, and its identity is among the earlier ones or in
  -- `seen`.
  abbrev IsRepeated : List Str → List (InstanceDraft Num) → Str → Type 0
  IsRepeated seen insts name =
      (before : List (InstanceDraft Num)) × (inst : InstanceDraft Num) × (after : List
        (InstanceDraft Num))
      × (insts ≡ before ++ inst ∷ after)
      × (inst.name ≡ name)
      × (In (identity_of registry custom_names inst) (identities registry custom_names before)
          ⊎ In (identity_of registry custom_names inst) seen)

  first_duplicate-IsRepeated :
      (seen : List Str) (insts : List (InstanceDraft Num)) (name : Str)
      → first_duplicate registry custom_names seen insts ≡ some name
      → IsRepeated seen insts name
  unfolding first_duplicate
  first_duplicate-IsRepeated seen [] name h = cc
  first_duplicate-IsRepeated seen (inst ∷ rest) name h =
      let identity = identity_of registry custom_names inst in
      elim (Bool-cases (has identity seen)) [
        | inl e ↦
            let same : inst.name ≡ name = ground (arith, rw e at h) in
            ([], inst, rest, refl, same, inr ((has_iff identity seen).0 e))
        | inr e ↦
            let (before, found, after, at, same, m) =
              first_duplicate-IsRepeated (identity ∷ seen) rest name (rw e at h) in
            (
              inst ∷ before,
              found,
              after,
              ap (inst ∷◌) at,
              same,
              elim m [
                | inl earlier ↦ inl (inr earlier)
                | inr later ↦ elim later [ inl p ↦ inl (inl p) | inr s ↦ inr s ]
              ],
            )
      ]

  -- If a list of instances is refused as holding a duplicate, the name in the message is that of an
  -- instance in the list whose identity is the identity of an earlier one.
  pub validate_instances-duplicate :
      (insts : List (InstanceDraft Num)) (name : Str)
      → validate_instances insts registry custom_names ≡ some (duplicate name)
      → (before : List (InstanceDraft Num)) × (inst : InstanceDraft Num) × (after : List
          (InstanceDraft Num))
        × (insts ≡ before ++ inst ∷ after)
        × (inst.name ≡ name)
        × In (identity_of registry custom_names inst) (identities registry custom_names before)
  unfolding validate_instances
  validate_instances-duplicate insts name h =
      elim (Option-cases (first_duplicate registry custom_names [] insts)) [
        | inl e ↦ absurd (ground (arith, rw e at h))
        | inr (repeated, e) ↦
            let same : repeated ≡ name = ground (arith, rw e at h) in
            let (before, inst, after, at, named, m) =
              first_duplicate-IsRepeated [] insts name (e ∙ ap some same) in
            (
              before,
              inst,
              after,
              at,
              named,
              elim m [ inl earlier ↦ earlier | inr never ↦ absurd never ],
            )
      ]
