-- ===== src/Backend/Updates.antt =====
-- What an update of a preset on the server changes.
use bit_bench.Prelude.{
  ◌≡◌, refl, ◌≢◌, ◌⊎◌, inl, inr, Option, none, some, List, [], ◌∷◌, true, false, ap, sym, ◌∙◌,
  Bool-cases, Option-cases, Str, codes, str_eq, str_eq_iff, subst,
}
use bit_bench.Backend.{Result, ok, error}
use bit_bench.Backend.Coercion.{>>=-eq-ok, value_of}
use bit_bench.Backend.Presets.{
  User, StoredPreset, PresetError, PresetUpdate, not_found, forbidden, server_can_manage_preset,
  name_taken, find_preset, store_update, updated_name, updated_visibility, updated_compressors,
  changed_preset, save_preset, update_preset,
}

abbrev preset_or :
    {Config : Type 0} → StoredPreset Config → Option (StoredPreset Config) → StoredPreset Config
preset_or d none = d
preset_or d (some p) = p

-- The preset with these three fields.
abbrev with_fields :
    {Config : Type 0} → Str → Str → Config → StoredPreset Config → StoredPreset Config
with_fields name visibility c p = record p { name = name; visibility = visibility; compressors = c }

module _ {Config : Type 0} where
  find_preset-id :
      (id : Str) (presets : List (StoredPreset Config)) (p : StoredPreset Config)
      → find_preset id presets ≡ some p
      → p.id ≡ id
  unfolding find_preset
  find_preset-id id [] p h = cc
  find_preset-id id (q ∷ presets) p h = elim (Bool-cases (str_eq q.id id)) [
    | inl e ↦
        let same : q ≡ p = ap (preset_or q) (rw e at h) in
        ap (λ x. x.id) (sym same) ∙ (str_eq_iff q.id id).0 e
    | inr e ↦ find_preset-id id presets p (rw e at h)
  ]

  find-store_update_other :
      (id k name visibility : Str) (c : Config) (presets : List (StoredPreset Config))
      → k ≢ id
      → find_preset k (store_update id name visibility c presets) ≡ find_preset k presets
  unfolding find_preset store_update
  find-store_update_other id k name visibility c [] ne = refl
  find-store_update_other id k name visibility c (q ∷ presets) ne =
      let ih = find-store_update_other id k name visibility c presets ne in
      elim (Bool-cases (str_eq q.id id)) [
        | inl e ↦ elim (Bool-cases (str_eq q.id k)) [
          | inl d ↦ absurd (ne (sym ((str_eq_iff q.id k).0 d) ∙ (str_eq_iff q.id id).0 e))
          | inr d ↦ rw (e, d) ih
        ]
        | inr e ↦ elim (Bool-cases (str_eq q.id k)) [
          | inl d ↦ rw (e, d) refl
          | inr d ↦ rw (e, d) ih
        ]
      ]

  find-store_update :
      (id name visibility : Str) (c : Config) (presets : List (StoredPreset Config))
      (p : StoredPreset Config)
      → find_preset id presets ≡ some p
      → find_preset id (store_update id name visibility c presets)
        ≡ some (with_fields name visibility c p)
  unfolding find_preset store_update
  find-store_update id name visibility c [] p h = cc
  find-store_update id name visibility c (q ∷ presets) p h = elim (Bool-cases (str_eq q.id id)) [
    | inl e ↦
        let same : q ≡ p = ap (preset_or q) (rw e at h) in
        rw (e, e) (ap (λ x. some (with_fields name visibility c x)) same)
    | inr e ↦ rw (e, e) (find-store_update id name visibility c presets p (rw e at h))
  ]

  -- What a change of a preset keeps: its identifier, its owner and its group; its visibility too,
  -- unless the owner or an administrator changes it.
  abbrev pub Keeps : User → StoredPreset Config → StoredPreset Config → Type 0
  Keeps actor q p =
      (p.id ≡ q.id)
      × (p.owner_id ≡ q.owner_id)
      × (p.group_id ≡ q.group_id)
      × ((p.visibility ≡ q.visibility) ⊎ (actor.id ≡ q.owner_id) ⊎ (actor.role ≡ codes "admin"))

  -- What an update does to the store. Refused, it changes nothing. Done, the preset was there, the
  -- actor may manage it, no other preset of its owner has the new name, and it is found as the
  -- answer says.
  abbrev pub Updates :
      User
      → Str
      → List (StoredPreset Config)
      → List (StoredPreset Config) × Result PresetError (StoredPreset Config)
      → Type 0
  Updates actor id presets (after, error e) = after ≡ presets
  Updates actor id presets (after, ok p) =
      (q : StoredPreset Config) × (find_preset id presets ≡ some q)
      × (server_can_manage_preset actor q ≡ true)
      × Keeps actor q p
      × (name_taken id p.owner_id p.name presets ≡ false)
      × (find_preset id after ≡ some p)

  -- What an update does, to the other presets too.
  abbrev pub Contract :
      User
      → Str
      → List (StoredPreset Config)
      → List (StoredPreset Config) × Result PresetError (StoredPreset Config)
      → Type 0
  Contract actor id presets out =
      Updates actor id presets out
      × ((k : Str) → k ≢ id → find_preset k out.0 ≡ find_preset k presets)

  module _ {Body : Type 0} (resolve : User → Body → Result PresetError Config) where
    updated_visibility-ok :
        (actor : User) (v : Option Str) (q : StoredPreset Config) (w : Str)
        → updated_visibility resolve actor v q ≡ ok w
        → (w ≡ q.visibility) ⊎ (actor.id ≡ q.owner_id) ⊎ (actor.role ≡ codes "admin")
    unfolding updated_visibility
    updated_visibility-ok actor none q w h = inl (sym (ap (value_of w) h))
    updated_visibility-ok actor (some v) q w h = elim (Bool-cases (str_eq actor.id q.owner_id)) [
      | inl e ↦ inr (inl ((str_eq_iff actor.id q.owner_id).0 e))
      | inr e ↦ elim (Bool-cases (str_eq actor.role (codes "admin"))) [
        | inl d ↦ inr (inr ((str_eq_iff actor.role (codes "admin")).0 d))
        | inr d ↦ inl (sym (ap (value_of w) (rw (e, d) at h)))
      ]
    ]

    pub changed_preset-ok :
        (actor : User) (update : PresetUpdate Body) (q p : StoredPreset Config)
        → changed_preset resolve actor update q ≡ ok p
        → (p ≡ with_fields p.name p.visibility p.compressors q) × Keeps actor q p
    unfolding changed_preset
    changed_preset-ok actor update q p h =
        let (name, _, h1) = >>=-eq-ok (updated_name resolve update.name q) _ p h in
        let (w, v, h2) = >>=-eq-ok (updated_visibility resolve actor update.visibility q) _ p h1 in
        let (c, _, h3) =
          >>=-eq-ok (updated_compressors resolve actor update.compressors q) _ p h2 in
        let same : with_fields name w c q ≡ p = ap (value_of p) h3 in
        subst (λ x. (x ≡ with_fields x.name x.visibility x.compressors q) × Keeps actor q x) same
          (refl, (refl, refl, refl, updated_visibility-ok actor update.visibility q w v))

    save_preset-Updates :
        (actor : User) (id : Str) (update : PresetUpdate Body)
        (presets : List (StoredPreset Config)) (q : StoredPreset Config)
        (r : Result PresetError (StoredPreset Config))
        → find_preset id presets ≡ some q
        → server_can_manage_preset actor q ≡ true
        → changed_preset resolve actor update q ≡ r
        → Updates actor id presets (save_preset resolve id r presets)
    unfolding save_preset
    save_preset-Updates actor id update presets q (error e) found may h = refl
    save_preset-Updates actor id update presets q (ok p) found may h =
        let (shape, keeps) = changed_preset-ok actor update q p h in
        elim (Bool-cases (name_taken id p.owner_id p.name presets)) [
          | inl e ↦ rw e refl
          | inr e ↦ rw e (
            q,
            found,
            may,
            keeps,
            e,
            find-store_update id p.name p.visibility p.compressors presets q found
                ∙ ap some (sym shape),
          )
        ]

    save_preset-other :
        (id k : Str) (presets : List (StoredPreset Config))
        (r : Result PresetError (StoredPreset Config))
        → k ≢ id
        → find_preset k (save_preset resolve id r presets).0 ≡ find_preset k presets
    unfolding save_preset
    save_preset-other id k presets (error e) ne = refl
    save_preset-other id k presets (ok p) ne =
        elim (Bool-cases (name_taken id p.owner_id p.name presets)) [
          | inl e ↦ rw e refl
          | inr e ↦ rw e (find-store_update_other id k p.name p.visibility p.compressors presets ne)
        ]

    update_none :
        (actor : User) (id : Str) (update : PresetUpdate Body)
        (presets : List (StoredPreset Config))
        → find_preset id presets ≡ none
        → (presets, error not_found) ≡ update_preset resolve actor id update presets
    unfolding update_preset
    update_none actor id update presets e = sym (rw (e, update_preset))

    update_refused :
        (actor : User) (id : Str) (update : PresetUpdate Body)
        (presets : List (StoredPreset Config)) (q : StoredPreset Config)
        → find_preset id presets ≡ some q
        → server_can_manage_preset actor q ≡ false
        → (presets, error forbidden) ≡ update_preset resolve actor id update presets
    unfolding update_preset
    update_refused actor id update presets q e d = sym (rw (e, d, update_preset))

    update_saved :
        (actor : User) (id : Str) (update : PresetUpdate Body)
        (presets : List (StoredPreset Config)) (q : StoredPreset Config)
        → find_preset id presets ≡ some q
        → server_can_manage_preset actor q ≡ true
        → save_preset resolve id (changed_preset resolve actor update q) presets
          ≡ update_preset resolve actor id update presets
    unfolding update_preset
    update_saved actor id update presets q e d = sym (rw (e, d, update_preset))

    -- An update by an actor changes at most the preset that it names, and only where the actor may
    -- manage it: refused, it changes nothing; done, the preset keeps its identifier, its owner and
    -- its group, it keeps its visibility unless its owner or an administrator changes it, no other
    -- preset of its owner has its name, case aside, and it is found afterwards as the answer gives
    -- it.
    pub update_preset_lem :
        (actor : User) (id : Str) (update : PresetUpdate Body)
        (presets : List (StoredPreset Config))
        → Updates actor id presets (update_preset resolve actor id update presets)
          × ((k : Str)
              → k ≢ id
              → find_preset k (update_preset resolve actor id update presets).0
                ≡ find_preset k presets)
    update_preset_lem actor id update presets = elim (Option-cases (find_preset id presets)) [
      | inl e ↦
          subst (Contract actor id presets) (update_none actor id update presets e)
            (refl, (λ k ne. refl))
      | inr (q, e) ↦ elim (Bool-cases (server_can_manage_preset actor q)) [
        | inr d ↦
            subst (Contract actor id presets) (update_refused actor id update presets q e d)
              (refl, (λ k ne. refl))
        | inl d ↦ subst (Contract actor id presets) (update_saved actor id update presets q e d) (
          save_preset-Updates actor id update presets q (changed_preset resolve actor update q) e d
              refl,
          (λ k ne. save_preset-other id k presets (changed_preset resolve actor update q) ne),
        )
      ]
    ]
