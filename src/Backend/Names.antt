-- ===== src/Backend/Names.antt =====
-- How the unique keys of the table of presets are kept: the identifiers, and the names of an owner.
use bit_bench.Prelude.{
  ◌≡◌, ◌≢◌, refl, sym, ap, ◌∙◌, inl, inr, some, List, [], ◌∷◌, true, false, ◌||◌, Bool, Bool-cases,
  Str, str_eq, str_eq_iff, to_lower, All,
}
use bit_bench.Prelude.Ordered.{Pairwise, All-mono}
use bit_bench.Backend.Sound.{preset_or}
use bit_bench.Backend.Presets.{StoredPreset, name_taken, find_preset, store_update}

other_id : (a b : Str) → a ≢ b → str_eq a b ≡ false
other_id a b ne = elim (Bool-cases (str_eq a b)) [
  | inl e ↦ absurd (ne ((str_eq_iff a b).0 e))
  | inr e ↦ e
]

or_right : (a b : Bool) → (a || b) ≡ false → b ≡ false
or_right true b h = cc
or_right false b h = h

module _ {Config : Type 0} where
  -- `p` has another identifier than `q`, and another name, case aside, if it has the same owner.
  abbrev pub IsApart : StoredPreset Config → StoredPreset Config → Type 0
  IsApart q p = (p.id ≢ q.id) × (p.owner_id ≡ q.owner_id → to_lower p.name ≢ to_lower q.name)

  -- The name is free for the preset `id` of an owner.
  abbrev pub IsFree : Str → Str → Str → StoredPreset Config → Type 0
  IsFree id owner name p = p.id ≢ id → p.owner_id ≡ owner → to_lower p.name ≢ to_lower name

  pub name_taken-IsFree :
      (id owner name : Str) (presets : List (StoredPreset Config))
      → name_taken id owner name presets ≡ false
      → All (IsFree id owner name) presets
  unfolding name_taken
  name_taken-IsFree id owner name [] h = tt
  name_taken-IsFree id owner name (p ∷ presets) h = (
    (λ ne o l.
        let taken : true ≡ false =
          rw
            (
              other_id p.id id ne,
              (str_eq_iff p.owner_id owner).1 o,
              (str_eq_iff (to_lower p.name) (to_lower name)).1 l,
            )
            at h in
        cc),
    name_taken-IsFree id owner name presets (or_right _ _ h),
  )

  store_update-absent :
      (id name v : Str) (c : Config) (presets : List (StoredPreset Config))
      → All (λ p. p.id ≢ id) presets
      → store_update id name v c presets ≡ presets
  unfolding store_update
  store_update-absent id name v c [] h = refl
  store_update-absent id name v c (p ∷ presets) (ne, h) =
      rw (other_id p.id id ne, store_update-absent id name v c presets h) refl

  -- The changed preset is apart from a preset `q` ahead of it.
  store_update-IsApart :
      (id name v : Str) (c : Config) (q found : StoredPreset Config)
      (presets : List (StoredPreset Config))
      → q.id ≢ id
      → find_preset id presets ≡ some found
      → IsFree id found.owner_id name q
      → Pairwise IsApart presets
      → All (IsApart q) presets
      → All (IsApart q) (store_update id name v c presets)
  unfolding store_update find_preset
  store_update-IsApart id name v c q found [] ne h free d apart = tt
  store_update-IsApart id name v c q found (p ∷ presets) ne h free (new, d) (here, apart) =
      elim (Bool-cases (str_eq p.id id)) [
        | inl e ↦
            let same : p ≡ found = ap (preset_or p) (rw e at h) in
            let gone : All (λ s. s.id ≢ id) presets =
              All-mono _ _ presets (λ s a k. a.0 (k ∙ sym ((str_eq_iff p.id id).0 e))) new in
            rw (e, store_update-absent id name v c presets gone)
              ((here.0, (λ o l. free ne (sym o ∙ ap (λ x. x.owner_id) same) (sym l))), apart)
        | inr e ↦
            rw e
              (here, store_update-IsApart id name v c q found presets ne (rw e at h) free d apart)
      ]

  -- A preset is apart from those that its name is free of.
  pub new-IsApart :
      (q : StoredPreset Config) (presets : List (StoredPreset Config))
      → All (λ p. p.id ≢ q.id) presets
      → All (IsFree q.id q.owner_id q.name) presets
      → All (IsApart q) presets
  new-IsApart q [] h free = tt
  new-IsApart q (p ∷ presets) (ne, h) (own, free) = ((ne, own ne), new-IsApart q presets h free)

  -- A changed name that is free keeps the presets apart.
  pub store_update-Pairwise :
      (id name v : Str) (c : Config) (found : StoredPreset Config)
      (presets : List (StoredPreset Config))
      → find_preset id presets ≡ some found
      → All (IsFree id found.owner_id name) presets
      → Pairwise IsApart presets
      → Pairwise IsApart (store_update id name v c presets)
  unfolding store_update find_preset
  store_update-Pairwise id name v c found [] h free d = tt
  store_update-Pairwise id name v c found (p ∷ presets) h (own, free) (new, d) =
      elim (Bool-cases (str_eq p.id id)) [
        | inl e ↦
            let same : p ≡ found = ap (preset_or p) (rw e at h) in
            let pid : p.id ≡ id = (str_eq_iff p.id id).0 e in
            let gone : All (λ s. s.id ≢ id) presets =
              All-mono _ _ presets (λ s a k. a.0 (k ∙ sym pid)) new in
            let open_name : All (IsFree p.id p.owner_id name) presets =
              All-mono _ _ presets
                (λ s f ne o. f (λ k. ne (k ∙ sym pid)) (o ∙ ap (λ x. x.owner_id) same)) free in
            let moved = record p { name = name; visibility = v; compressors = c } in
            rw (e, store_update-absent id name v c presets gone)
              (new-IsApart moved presets (All-mono _ _ presets (λ s a. a.0) new) open_name, d)
        | inr e ↦
            let next : find_preset id presets ≡ some found = rw e at h in
            rw e (
              store_update-IsApart id name v c p found presets
                  (λ k. cc (e, (str_eq_iff p.id id).1 k)) next own d new,
              store_update-Pairwise id name v c found presets next free d,
            )
      ]
