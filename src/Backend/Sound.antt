-- ===== src/Backend/Sound.antt =====
-- What makes a stored preset sound, and how an operation keeps it.
use bit_bench.Prelude.{
  ◌≡◌, ◌≢◌, ◌⊎◌, inl, inr, ◌||◌, Option, none, some, List, [], ◌∷◌, ap, sym, subst, Bool-cases, Str,
  codes, str_eq, str_eq_iff, length, ltb, ltb→le, All, arith, ◌≤◌,
}
use bit_bench.Backend.Strings.{trim_space}
use bit_bench.Backend.{Result, ok}
use bit_bench.Backend.Coercion.{>>=-eq-ok, error-ne-ok, value_of}
use bit_bench.Backend.Presets.{
  User, StoredPreset, PresetError, PresetUpdate, validate_visibility, validate_name, find_preset,
  store_update, store_delete, new_preset, updated_name, updated_visibility, updated_compressors,
  changed_preset,
}

-- A stored name has 1 to 100 bytes.
abbrev pub IsName : Str → Type 0
IsName name = (name ≢ []) × (length name ≤ 100)

abbrev pub IsVisibility : Str → Type 0
IsVisibility v = (v ≡ codes "private") ⊎ (v ≡ codes "group")

abbrev pub IsSound : {Config : Type 0} → StoredPreset Config → Type 0
IsSound p = IsName p.name × IsVisibility p.visibility

validate_name-IsName : (name trimmed : Str) → validate_name name ≡ ok trimmed → IsName trimmed
unfolding validate_name
validate_name-IsName name trimmed h = elim (Bool-cases (str_eq (trim_space name) [])) [
  | inl e ↦ absurd (error-ne-ok _ trimmed (rw e at h))
  | inr e ↦ elim (Bool-cases (ltb 100 (length (trim_space name)))) [
    | inl l ↦ absurd (error-ne-ok _ trimmed (rw (e, l) at h))
    | inr l ↦
        let same : trim_space name ≡ trimmed = ap (value_of trimmed) (rw (e, l) at h) in
        rw (sym same) (
          (λ q. cc (e, (str_eq_iff (trim_space name) []).1 q)),
          ltb→le 100 (length (trim_space name)) l,
        )
  ]
]

validate_visibility-IsVisibility :
    (actor : User) (v w : Str) → validate_visibility actor v ≡ ok w → IsVisibility w
unfolding validate_visibility
validate_visibility-IsVisibility actor v w h =
    ground (arith, str_eq_iff v (codes "private"), str_eq_iff v (codes "group"))

module _ {Config Body : Type 0} (resolve : User → Body → Result PresetError Config) where
  pub new_preset-IsSound :
      (actor : User) (new_id name visibility : Str) (body : Body) (p : StoredPreset Config)
      → new_preset resolve actor new_id name visibility body ≡ ok p
      → IsSound p
  unfolding new_preset
  new_preset-IsSound actor new_id name visibility body p h =
      let (name', n, h1) = >>=-eq-ok (validate_name name) _ p h in
      let (visibility', v, h2) = >>=-eq-ok (validate_visibility actor visibility) _ p h1 in
      let (c, _, h3) = >>=-eq-ok (resolve actor body) _ p h2 in
      subst IsSound (ap (value_of p) h3) (
        validate_name-IsName name name' n,
        validate_visibility-IsVisibility actor visibility visibility' v,
      )

  updated_name-IsName :
      (name : Option Str) (q : StoredPreset Config) (w : Str)
      → IsName q.name
      → updated_name resolve name q ≡ ok w
      → IsName w
  unfolding updated_name
  updated_name-IsName none q w h e = subst IsName (ap (value_of w) e) h
  updated_name-IsName (some name) q w h e = validate_name-IsName name w e

  updated_visibility-IsVisibility :
      (actor : User) (v : Option Str) (q : StoredPreset Config) (w : Str)
      → IsVisibility q.visibility
      → updated_visibility resolve actor v q ≡ ok w
      → IsVisibility w
  unfolding updated_visibility
  updated_visibility-IsVisibility actor none q w h e = subst IsVisibility (ap (value_of w) e) h
  updated_visibility-IsVisibility actor (some v) q w h e =
      elim (Bool-cases (str_eq actor.id q.owner_id || str_eq actor.role (codes "admin"))) [
        | inl d ↦ validate_visibility-IsVisibility actor v w (rw d at e)
        | inr d ↦ subst IsVisibility (ap (value_of w) (rw d at e)) h
      ]

  pub changed_preset-IsSound :
      (actor : User) (update : PresetUpdate Body) (q p : StoredPreset Config)
      → IsSound q
      → changed_preset resolve actor update q ≡ ok p
      → IsSound p
  unfolding changed_preset
  changed_preset-IsSound actor update q p (n, v) h =
      let (name, e, h1) = >>=-eq-ok (updated_name resolve update.name q) _ p h in
      let (w, e', h2) = >>=-eq-ok (updated_visibility resolve actor update.visibility q) _ p h1 in
      let (c, _, h3) = >>=-eq-ok (updated_compressors resolve actor update.compressors q) _ p h2 in
      subst IsSound (ap (value_of p) h3) (
        updated_name-IsName update.name q name n e,
        updated_visibility-IsVisibility actor update.visibility q w v e',
      )

abbrev pub preset_or :
    {Config : Type 0} → StoredPreset Config → Option (StoredPreset Config) → StoredPreset Config
preset_or d none = d
preset_or d (some p) = p

pub find_preset-IsSound :
    {Config : Type 0} (id : Str) (presets : List (StoredPreset Config)) (p : StoredPreset Config)
    → All IsSound presets
    → find_preset id presets ≡ some p
    → IsSound p
unfolding find_preset
find_preset-IsSound id [] p h e = cc
find_preset-IsSound id (q ∷ presets) p (here, h) e = elim (Bool-cases (str_eq q.id id)) [
  | inl d ↦ subst IsSound (ap (preset_or q) (rw d at e)) here
  | inr d ↦ find_preset-IsSound id presets p h (rw d at e)
]

pub store_update-IsSound :
    {Config : Type 0} (id name v : Str) (c : Config) (presets : List (StoredPreset Config))
    → IsName name
    → IsVisibility v
    → All IsSound presets
    → All IsSound (store_update id name v c presets)
unfolding store_update
store_update-IsSound id name v c [] n w h = tt
store_update-IsSound id name v c (q ∷ presets) n w (here, h) = elim (Bool-cases (str_eq q.id id)) [
  | inl d ↦ rw d ((n, w), store_update-IsSound id name v c presets n w h)
  | inr d ↦ rw d (here, store_update-IsSound id name v c presets n w h)
]

pub store_delete-IsSound :
    {Config : Type 0} (id : Str) (presets : List (StoredPreset Config))
    → All IsSound presets
    → All IsSound (store_delete id presets)
unfolding store_delete
store_delete-IsSound id [] h = tt
store_delete-IsSound id (q ∷ presets) (here, h) = elim (Bool-cases (str_eq q.id id)) [
  | inl d ↦ rw d (store_delete-IsSound id presets h)
  | inr d ↦ rw d (here, store_delete-IsSound id presets h)
]
