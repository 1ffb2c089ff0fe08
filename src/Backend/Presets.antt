-- ===== src/Backend/Presets.antt =====
-- Saved presets on the server (backend/internal/service/preset_service.go,
-- backend/internal/repository/preset_repository.go and the table of
-- backend/internal/config/migrations/0009_benchmark_presets.sql). A query that the database fails is
-- left out. `resolveInstances` on the JSON of a request, without the platforms, is a parameter.
use bit_bench.Prelude.{
  Option, none, some, List, [], ◌∷◌, Bool, true, false, not, ◌&&◌, ◌||◌, Str, codes, str_eq,
  to_lower, length, ltb, if◌then◌else◌, any, keep, find,
}
use bit_bench.Platforms.{option_eq}
use bit_bench.Permissions.{present}
use bit_bench.Backend.Strings.{trim_space}
use bit_bench.Backend.{Result, ok, error, ◌>>=◌}

pub record User : Type 0 where
  pub id : Str
  pub role : Str
  pub group_id : Option Str

-- `model.BenchmarkPreset` with its configuration; the two times are left out.
pub record StoredPreset (Config : Type 0) : Type 0 where
  pub id : Str
  pub owner_id : Str
  pub group_id : Option Str
  pub name : Str
  pub visibility : Str
  pub compressors : Config

pub data PresetError : Type 0 where
  bad_name bad_visibility bad_configuration conflict not_found forbidden : PresetError

-- `PresetUpdate`: a field that is nil, or an empty `Compressors`, is `none`.
pub record PresetUpdate (Body : Type 0) : Type 0 where
  pub name : Option Str
  pub visibility : Option Str
  pub compressors : Option Body

abbrev pub max_preset_name_len : Str → Bool
max_preset_name_len name = ltb 100 (length name)

unfoldable pub validate_visibility : User → Str → Result PresetError Str
unfolding present
validate_visibility actor visibility =
    if str_eq visibility (codes "private")
    then ok visibility
    else (if str_eq visibility (codes "group")
        then (if present actor.group_id then ok visibility else error bad_visibility)
        else error bad_visibility)

unfoldable pub validate_name : Str → Result PresetError Str
unfolding trim_space
validate_name name =
    let trimmed = trim_space name in
    if str_eq trimmed [] || max_preset_name_len trimmed then error bad_name else ok trimmed

module _ {Config : Type 0} where
  -- `CanManagePreset` for an actor and a preset that are not nil
  unfoldable pub server_can_manage_preset : User → StoredPreset Config → Bool
  unfolding option_eq present
  server_can_manage_preset actor preset =
      if str_eq actor.role (codes "admin") || str_eq actor.id preset.owner_id
      then true
      else (if str_eq actor.role (codes "professor")
            && str_eq preset.visibility (codes "group")
            && present actor.group_id
            && present preset.group_id
            && option_eq actor.group_id preset.group_id
          then true
          else false)

  -- The unique index on (owner_id, LOWER(name)): another preset of the owner has the name.
  unfoldable pub name_taken : Str → Str → Str → List (StoredPreset Config) → Bool
  unfolding to_lower
  name_taken id owner_id name presets =
      any
        (λ p.
          not (str_eq p.id id)
          && str_eq p.owner_id owner_id
          && str_eq (to_lower p.name) (to_lower name))
        presets

  -- `FindByID`
  unfoldable pub find_preset : Str → List (StoredPreset Config) → Option (StoredPreset Config)
  find_preset id presets = find (λ p. str_eq p.id id) presets

  -- `UPDATE benchmark_presets SET name = $2, visibility = $3, compressors = $4 WHERE id = $1`
  unfoldable pub store_update :
      Str → Str → Str → Config → List (StoredPreset Config) → List (StoredPreset Config)
  store_update id name visibility compressors [] = []
  store_update id name visibility compressors (p ∷ presets) =
      (if str_eq p.id id
        then record p { name = name; visibility = visibility; compressors = compressors }
        else p)
      ∷ store_update id name visibility compressors presets

  -- `DELETE FROM benchmark_presets WHERE id = $1`
  unfoldable pub store_delete : Str → List (StoredPreset Config) → List (StoredPreset Config)
  store_delete id presets = keep (λ p. not (str_eq p.id id)) presets

  module _ {Body : Type 0} (resolve : User → Body → Result PresetError Config) where
    abbrev pub Store : Type 0
    Store = List (StoredPreset Config)

    unfoldable pub insert_preset :
        StoredPreset Config → Store → Store × Result PresetError (StoredPreset Config)
    unfolding name_taken
    insert_preset preset presets =
        if name_taken preset.id preset.owner_id preset.name presets
        then (presets, error conflict)
        else (preset ∷ presets, ok preset)

    unfoldable pub new_preset :
        User → Str → Str → Str → Body → Result PresetError (StoredPreset Config)
    unfolding validate_name validate_visibility
    new_preset actor new_id name visibility body = do
      name' ← validate_name name
      visibility' ← validate_visibility actor visibility
      compressors ← resolve actor body
      ok (record {
        id = new_id;
        owner_id = actor.id;
        group_id = actor.group_id;
        name = name';
        visibility = visibility';
        compressors = compressors;
      })

    -- `Create`, with the identifier that the repository draws
    unfoldable pub create_preset :
        User → Str → Str → Str → Body → Store → Store × Result PresetError (StoredPreset Config)
    unfolding new_preset insert_preset
    create_preset actor new_id name visibility body presets =
        elim (new_preset actor new_id name visibility body) [
          | error e ↦ (presets, error e)
          | ok preset ↦ insert_preset preset presets
        ]

    unfoldable pub updated_name : Option Str → StoredPreset Config → Result PresetError Str
    unfolding validate_name
    updated_name none preset = ok preset.name
    updated_name (some name) preset = validate_name name

    -- Only the owner and administrators change the visibility; another actor's is ignored.
    unfoldable pub updated_visibility :
        User → Option Str → StoredPreset Config → Result PresetError Str
    unfolding validate_visibility
    updated_visibility actor none preset = ok preset.visibility
    updated_visibility actor (some visibility) preset =
        if str_eq actor.id preset.owner_id || str_eq actor.role (codes "admin")
        then validate_visibility actor visibility
        else ok preset.visibility

    unfoldable pub updated_compressors :
        User → Option Body → StoredPreset Config → Result PresetError Config
    updated_compressors actor none preset = ok preset.compressors
    updated_compressors actor (some body) preset = resolve actor body

    unfoldable pub changed_preset :
        User → PresetUpdate Body → StoredPreset Config → Result PresetError (StoredPreset Config)
    unfolding updated_name updated_visibility updated_compressors
    changed_preset actor update preset = do
      name ← updated_name update.name preset
      visibility ← updated_visibility actor update.visibility preset
      compressors ← updated_compressors actor update.compressors preset
      ok (record preset { name = name; visibility = visibility; compressors = compressors })

    unfoldable pub save_preset :
        Str
        → Result PresetError (StoredPreset Config)
        → Store
        → Store × Result PresetError (StoredPreset Config)
    unfolding name_taken store_update
    save_preset id (error e) presets = (presets, error e)
    save_preset id (ok p) presets =
        if name_taken id p.owner_id p.name presets
        then (presets, error conflict)
        else (store_update id p.name p.visibility p.compressors presets, ok p)

    -- `Update`
    unfoldable pub update_preset :
        User → Str → PresetUpdate Body → Store → Store × Result PresetError (StoredPreset Config)
    unfolding find_preset server_can_manage_preset changed_preset save_preset
    update_preset actor id update presets = elim (find_preset id presets) [
      | none ↦ (presets, error not_found)
      | some preset ↦
          if not (server_can_manage_preset actor preset)
          then (presets, error forbidden)
          else save_preset id (changed_preset actor update preset) presets
    ]

  -- `Delete`
  unfoldable pub delete_preset :
      User → Str → List (StoredPreset Config) → List (StoredPreset Config) × Option PresetError
  unfolding find_preset server_can_manage_preset store_delete
  delete_preset actor id presets = elim (find_preset id presets) [
    | none ↦ (presets, some not_found)
    | some preset ↦
        if not (server_can_manage_preset actor preset)
        then (presets, some forbidden)
        else (store_delete id presets, none)
  ]
