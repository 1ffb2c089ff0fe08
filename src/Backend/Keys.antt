-- ===== src/Backend/Keys.antt =====
-- The unique keys of the table of presets, whatever operations are asked for.
use bit_bench.Prelude.{
  ◌≡◌, ◌≢◌, refl, sym, subst, inl, inr, some, List, Bool-cases, Option-cases, Str, ap, All,
}
use bit_bench.Prelude.Ordered.{Pairwise, keep-Pairwise}
use bit_bench.Backend.{Result, ok, error}
use bit_bench.Backend.Coercion.{>>=-eq-ok, value_of}
use bit_bench.Backend.Presets.{
  User, StoredPreset, PresetError, PresetUpdate, server_can_manage_preset, name_taken, find_preset,
  validate_name, validate_visibility, store_delete, insert_preset, new_preset, create_preset,
  changed_preset, save_preset, update_preset, delete_preset,
}
use bit_bench.Backend.Names.{IsApart, name_taken-IsFree, new-IsApart, store_update-Pairwise}
use bit_bench.Backend.Updates.{changed_preset-ok}
use bit_bench.Backend.Stores.{Reach, start, next, created, updated, deleted, Result-cases}

-- No two presets have one identifier, and no two of one owner have one name, case aside.
abbrev pub IsUnique : {Config : Type 0} → List (StoredPreset Config) → Type 0
IsUnique presets = Pairwise IsApart presets

delete_preset-IsUnique :
    {Config : Type 0} (actor : User) (id : Str) (presets : List (StoredPreset Config))
    → IsUnique presets
    → IsUnique (delete_preset actor id presets).0
unfolding delete_preset store_delete
delete_preset-IsUnique actor id presets h = elim (Option-cases (find_preset id presets)) [
  | inl e ↦ rw (e, delete_preset) h
  | inr (q, e) ↦ elim (Bool-cases (server_can_manage_preset actor q)) [
    | inl d ↦ rw (e, d, delete_preset) (keep-Pairwise IsApart _ presets h)
    | inr d ↦ rw (e, d, delete_preset) h
  ]
]

module _ {Config Body : Type 0} (resolve : User → Body → Result PresetError Config) where
  new_preset-id :
      (actor : User) (new_id name visibility : Str) (body : Body) (p : StoredPreset Config)
      → new_preset resolve actor new_id name visibility body ≡ ok p
      → p.id ≡ new_id
  unfolding new_preset
  new_preset-id actor new_id name visibility body p h =
      let (name', _, h1) = >>=-eq-ok (validate_name name) _ p h in
      let (visibility', _, h2) = >>=-eq-ok (validate_visibility actor visibility) _ p h1 in
      let (c, _, h3) = >>=-eq-ok (resolve actor body) _ p h2 in
      ap (λ x. x.id) (sym (ap (value_of p) h3))

  insert_preset-IsUnique :
      (p : StoredPreset Config) (presets : List (StoredPreset Config))
      → All (λ q. q.id ≢ p.id) presets
      → IsUnique presets
      → IsUnique (insert_preset resolve p presets).0
  unfolding insert_preset
  insert_preset-IsUnique p presets new h =
      elim (Bool-cases (name_taken p.id p.owner_id p.name presets)) [
        | inl e ↦ rw e h
        | inr e ↦
            rw e (new-IsApart p presets new (name_taken-IsFree p.id p.owner_id p.name presets e), h)
      ]

  create_preset-IsUnique :
      (actor : User) (new_id name visibility : Str) (body : Body)
      (presets : List (StoredPreset Config))
      → All (λ q. q.id ≢ new_id) presets
      → IsUnique presets
      → IsUnique (create_preset resolve actor new_id name visibility body presets).0
  unfolding create_preset
  create_preset-IsUnique actor new_id name visibility body presets new h =
      elim (Result-cases (new_preset resolve actor new_id name visibility body)) [
        | inl (p, e) ↦
            let same = new_preset-id actor new_id name visibility body p e in
            rw (e, create_preset)
              (insert_preset-IsUnique p presets
                (subst (λ i. All (λ q. q.id ≢ i) presets) (sym same) new) h)
        | inr (x, e) ↦ rw (e, create_preset) h
      ]

  save_preset-IsUnique :
      (id : Str) (q : StoredPreset Config) (r : Result PresetError (StoredPreset Config))
      (presets : List (StoredPreset Config))
      → find_preset id presets ≡ some q
      → ((p : StoredPreset Config) → r ≡ ok p → p.owner_id ≡ q.owner_id)
      → IsUnique presets
      → IsUnique (save_preset resolve id r presets).0
  unfolding save_preset
  save_preset-IsUnique id q (error e) presets found owned h = h
  save_preset-IsUnique id q (ok p) presets found owned h =
      elim (Bool-cases (name_taken id p.owner_id p.name presets)) [
        | inl e ↦ rw e h
        | inr e ↦ rw e (
            store_update-Pairwise id p.name p.visibility p.compressors q presets found
              (name_taken-IsFree id q.owner_id p.name presets (rw (owned p refl) at e)) h)
      ]

  update_preset-IsUnique :
      (actor : User) (id : Str) (update : PresetUpdate Body) (presets : List (StoredPreset Config))
      → IsUnique presets
      → IsUnique (update_preset resolve actor id update presets).0
  unfolding update_preset
  update_preset-IsUnique actor id update presets h = elim (Option-cases (find_preset id presets)) [
    | inl e ↦ rw (e, update_preset) h
    | inr (q, e) ↦ elim (Bool-cases (server_can_manage_preset actor q)) [
      | inr d ↦ rw (e, d, update_preset) h
      | inl d ↦
          rw (e, d, update_preset)
            (save_preset-IsUnique id q (changed_preset resolve actor update q) presets e
              (λ p r. (changed_preset-ok resolve actor update q p r).1.1) h)
    ]
  ]

  -- Whatever operations actors ask for, where a new preset gets an identifier that is not in use:
  -- no two stored presets have one identifier, and no two of one owner have one name, case aside.
  pub Reach-IsUnique :
      (presets : List (StoredPreset Config)) → Reach resolve presets → IsUnique presets
  Reach-IsUnique _ start = tt
  Reach-IsUnique _ (next before _ r (created actor new_id name visibility body _ _ new e)) =
      subst IsUnique (sym e) (
        create_preset-IsUnique actor new_id name visibility body before new
          (Reach-IsUnique before r))
  Reach-IsUnique _ (next before _ r (updated actor id update _ _ e)) =
      subst IsUnique (sym e)
        (update_preset-IsUnique actor id update before (Reach-IsUnique before r))
  Reach-IsUnique _ (next before _ r (deleted actor id _ _ e)) =
      subst IsUnique (sym e) (delete_preset-IsUnique actor id before (Reach-IsUnique before r))
