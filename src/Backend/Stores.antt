-- ===== src/Backend/Stores.antt =====
-- The presets that the server's operations can lead to.
use bit_bench.Prelude.{
  ◌≡◌, ◌≢◌, refl, ◌⊎◌, inl, inr, none, some, List, [], sym, subst, Bool-cases, Option-cases, Str,
  codes, str_eq, All,
}
use bit_bench.Permissions.{present}
use bit_bench.Backend.{Result, ok, error}
use bit_bench.Backend.Presets.{
  User, StoredPreset, PresetError, PresetUpdate, validate_visibility, server_can_manage_preset,
  name_taken, find_preset, insert_preset, new_preset, create_preset, updated_name,
  updated_visibility, updated_compressors, changed_preset, save_preset, update_preset,
  delete_preset,
}
use bit_bench.Backend.Sound.{
  IsSound, new_preset-IsSound, changed_preset-IsSound, find_preset-IsSound, store_update-IsSound,
  store_delete-IsSound,
}

module _ {Config Body : Type 0} (resolve : User → Body → Result PresetError Config) where
  -- One operation of the service, by any actor. A new identifier is not in use yet.
  pub data Step : List (StoredPreset Config) → List (StoredPreset Config) → Type 0 where
    created :
        (actor : User) (new_id name visibility : Str) (body : Body)
        (before after : List (StoredPreset Config))
        → All (λ p. p.id ≢ new_id) before
        → after ≡ (create_preset resolve actor new_id name visibility body before).0
        → Step before after
    updated :
        (actor : User) (id : Str) (update : PresetUpdate Body)
        (before after : List (StoredPreset Config))
        → after ≡ (update_preset resolve actor id update before).0
        → Step before after
    deleted :
        (actor : User) (id : Str) (before after : List (StoredPreset Config))
        → after ≡ (delete_preset actor id before).0
        → Step before after

  -- The stores that operations lead to from an empty one.
  pub data Reach : List (StoredPreset Config) → Type 0 where
    start : Reach []
    next :
        (before after : List (StoredPreset Config)) → Reach before → Step before after → Reach after

pub Result-cases :
    {E A : Type 0} (r : Result E A) → ((a : A) × (r ≡ ok a)) ⊎ ((e : E) × (r ≡ error e))
Result-cases (ok a) = inl (a, refl)
Result-cases (error e) = inr (e, refl)

delete_preset-IsSound :
    {Config : Type 0} (actor : User) (id : Str) (presets : List (StoredPreset Config))
    → All IsSound presets
    → All IsSound (delete_preset actor id presets).0
unfolding delete_preset
delete_preset-IsSound actor id presets h = elim (Option-cases (find_preset id presets)) [
  | inl e ↦ rw (e, delete_preset) h
  | inr (q, e) ↦ elim (Bool-cases (server_can_manage_preset actor q)) [
    | inl d ↦ rw (e, d, delete_preset) (store_delete-IsSound id presets h)
    | inr d ↦ rw (e, d, delete_preset) h
  ]
]

module _ {Config Body : Type 0} (resolve : User → Body → Result PresetError Config) where
  insert_preset-IsSound :
      (p : StoredPreset Config) (presets : List (StoredPreset Config))
      → IsSound p
      → All IsSound presets
      → All IsSound (insert_preset resolve p presets).0
  unfolding insert_preset
  insert_preset-IsSound p presets sound h =
      elim (Bool-cases (name_taken p.id p.owner_id p.name presets)) [
        | inl e ↦ rw e h
        | inr e ↦ rw e (sound, h)
      ]

  create_preset-IsSound :
      (actor : User) (new_id name visibility : Str) (body : Body)
      (presets : List (StoredPreset Config))
      → All IsSound presets
      → All IsSound (create_preset resolve actor new_id name visibility body presets).0
  unfolding create_preset
  create_preset-IsSound actor new_id name visibility body presets h =
      elim (Result-cases (new_preset resolve actor new_id name visibility body)) [
        | inl (p, e) ↦
            rw (e, create_preset)
              (insert_preset-IsSound p presets
                (new_preset-IsSound resolve actor new_id name visibility body p e) h)
        | inr (x, e) ↦ rw (e, create_preset) h
      ]

  save_preset-IsSound :
      (id : Str) (r : Result PresetError (StoredPreset Config))
      (presets : List (StoredPreset Config))
      → ((p : StoredPreset Config) → r ≡ ok p → IsSound p)
      → All IsSound presets
      → All IsSound (save_preset resolve id r presets).0
  unfolding save_preset
  save_preset-IsSound id (error e) presets sound h = h
  save_preset-IsSound id (ok p) presets sound h =
      elim (Bool-cases (name_taken id p.owner_id p.name presets)) [
        | inl e ↦ rw e h
        | inr e ↦
            let (n, v) = sound p refl in
            rw e (store_update-IsSound id p.name p.visibility p.compressors presets n v h)
      ]

  update_preset-IsSound :
      (actor : User) (id : Str) (update : PresetUpdate Body) (presets : List (StoredPreset Config))
      → All IsSound presets
      → All IsSound (update_preset resolve actor id update presets).0
  unfolding update_preset
  update_preset-IsSound actor id update presets h = elim (Option-cases (find_preset id presets)) [
    | inl e ↦ rw (e, update_preset) h
    | inr (q, e) ↦ elim (Bool-cases (server_can_manage_preset actor q)) [
      | inr d ↦ rw (e, d, update_preset) h
      | inl d ↦
          let sound = find_preset-IsSound id presets q h e in
          rw (e, d, update_preset)
            (save_preset-IsSound id (changed_preset resolve actor update q) presets
              (λ p r. changed_preset-IsSound resolve actor update q p sound r) h)
    ]
  ]

  -- Whatever operations actors ask for, where a new preset gets an identifier that is not in use:
  -- every stored preset has a name of 1 to 100 bytes and is private or shared with the group.
  pub Reach-IsSound :
      (presets : List (StoredPreset Config)) → Reach resolve presets → All IsSound presets
  Reach-IsSound _ start = tt
  Reach-IsSound _ (next before _ r (created actor new_id name visibility body _ _ _ e)) =
      subst (All IsSound) (sym e)
        (create_preset-IsSound actor new_id name visibility body before (Reach-IsSound before r))
  Reach-IsSound _ (next before _ r (updated actor id update _ _ e)) =
      subst (All IsSound) (sym e)
        (update_preset-IsSound actor id update before (Reach-IsSound before r))
  Reach-IsSound _ (next before _ r (deleted actor id _ _ e)) =
      subst (All IsSound) (sym e) (delete_preset-IsSound actor id before (Reach-IsSound before r))

  -- An administrator who is in a group shares a preset whose owner is in none: it becomes visible to
  -- a group and has none.
  changed_preset-no_group :
      (actor : User) (g : Str) (q : StoredPreset Config)
      → actor.role ≡ codes "admin"
      → actor.group_id ≡ some g
      → q.group_id ≡ none
      → (p : StoredPreset Config) × (changed_preset resolve actor
            (record { name = none; visibility = some (codes "group"); compressors = none })
            q
          ≡ ok p)
        × (p.visibility ≡ codes "group")
        × (p.group_id ≡ none)
  unfolding changed_preset updated_name updated_visibility updated_compressors validate_visibility
      present str_eq
  changed_preset-no_group actor g q admin own lone = (
    record q { visibility = codes "group" },
    elim (Bool-cases (str_eq actor.id q.owner_id)) [
      | inl e ↦ rw (e, own) refl
      | inr e ↦ rw (e, admin, own) refl
    ],
    refl,
    lone,
  )
