-- ===== src/Presets.antt =====
-- Presets, the history of configurations, and the configuration restored from the last time
-- (pages/UploadPage.tsx). The user's answer to a question and what each request meets are
-- parameters; an answer that is no array is an array left out.
pub mod Laws
use bit_bench.Prelude.{
  ℕ, Option, none, some, List, [], ◌∷◌, ◌++◌, Bool, true, false, not, ◌&&◌, ◌||◌, Str, codes,
  str_eq, if◌then◌else◌, length, ltb, ◌==◌, map, take, trim,
}
use bit_bench.Api.{Settled, resolved, rejected}
use bit_bench.Objects.{Object, get, put, keys}
use bit_bench.Options.{Values, canonical_options}
use bit_bench.Instances.{InstanceDraft, Registry, max_instances_per_benchmark}
use bit_bench.Permissions.{Visibility}
use bit_bench.Editor.{CompressorInstance, EditorState, apply_instances, options_of, restore_drafts}

-- `BenchmarkPreset`, without the fields that only the permissions read.
pub record Preset (Num : Type 0) : Type 0 where
  pub id : Str
  pub name : Str
  pub compressors : List (CompressorInstance Num)

pub record ConfigHistoryEntry (Num : Type 0) : Type 0 where
  pub id : Str
  pub compressors : List (CompressorInstance Num)

-- The body of `POST /presets`.
pub record PresetRequest (Num : Type 0) : Type 0 where
  pub name : Str
  pub visibility : Visibility
  pub compressors : List (CompressorInstance Num)

-- An entry of a stored array: `none` where it is falsy. Its name is `none` where it is no string.
pub record SavedItem (Num : Type 0) : Type 0 where
  pub name : Option Str
  pub options : Option (Values Num)

-- `last_bench_config?.compressors`: falsy or of another type, an array, or an object.
pub data Saved (Num : Type 0) : Type 0 where
  nothing : Saved Num
  array : List (Option (SavedItem Num)) → Saved Num
  object : Object (Option (Values Num)) → Saved Num

-- The editor, and what surrounds it. `sent` lists the requests that store a preset, the latest
-- first.
pub record PresetState (Num : Type 0) : Type 0 where
  pub editor : EditorState Num
  pub presets : List (Preset Num)
  pub history : List (ConfigHistoryEntry Num)
  pub preset_name : Str
  pub visibility : Visibility
  pub saving : Bool
  pub restored : Bool
  pub sent : List (PresetRequest Num)

module _ {Num : Type 0} where
  -- A draft of a compressor in the registry; an unknown one is skipped.
  unfoldable pub draft_of : Registry Num → Str → Option (Values Num) → List (InstanceDraft Num)
  unfolding options_of
  draft_of registry name options = elim (get name registry) [
    | none ↦ []
    | some schema ↦
        record { name = name; options = canonical_options schema (options_of options) } ∷ []
  ]

  -- `!item || typeof item.name !== 'string'` is skipped.
  unfoldable pub draft_of_item : Registry Num → Option (SavedItem Num) → List (InstanceDraft Num)
  unfolding draft_of
  draft_of_item registry none = []
  draft_of_item registry (some item) = elim item.name [
    | none ↦ []
    | some name ↦ draft_of registry name item.options
  ]

  -- The two loops that restore a configuration.
  unfoldable pub drafts_of_items :
      Registry Num → List (Option (SavedItem Num)) → List (InstanceDraft Num)
  unfolding draft_of_item
  drafts_of_items registry [] = []
  drafts_of_items registry (item ∷ items) =
      draft_of_item registry item ++ drafts_of_items registry items

  unfoldable pub drafts_of_entries :
      Registry Num → Object (Option (Values Num)) → List (InstanceDraft Num)
  unfolding draft_of
  drafts_of_entries registry [] = []
  drafts_of_entries registry ((name, options) ∷ entries) =
      draft_of registry name options ++ drafts_of_entries registry entries

  unfoldable pub drafts_of_saved : Registry Num → Saved Num → List (InstanceDraft Num)
  unfolding drafts_of_items drafts_of_entries
  drafts_of_saved registry nothing = []
  drafts_of_saved registry (array items) = drafts_of_items registry items
  drafts_of_saved registry (object entries) = drafts_of_entries registry entries

  -- The callback that takes the user's data.
  unfoldable pub restore_saved :
      Registry Num → Settled (Saved Num) → EditorState Num → EditorState Num
  unfolding drafts_of_saved restore_drafts
  restore_saved registry (resolved (some saved)) e =
      restore_drafts (drafts_of_saved registry saved) e
  restore_saved registry (resolved none) e = e
  restore_saved registry (rejected message) e = e

  -- The effect that runs when the registry has changed.
  unfoldable pub restore : Registry Num → Settled (Saved Num) → PresetState Num → PresetState Num
  unfolding restore_saved
  restore registry answer s =
      if s.restored || (length (keys registry) == 0)
      then s
      else record s { restored = true; editor = restore_saved registry answer s.editor }

  unfoldable pub load_presets : Settled (List (Preset Num)) → PresetState Num → PresetState Num
  load_presets (resolved (some presets)) s = record s { presets = presets }
  load_presets (resolved none) s = record s { presets = [] }
  load_presets (rejected message) s = s

  unfoldable pub load_history :
      Settled (List (ConfigHistoryEntry Num)) → PresetState Num → PresetState Num
  load_history (resolved (some history)) s = record s { history = history }
  load_history (resolved none) s = record s { history = [] }
  load_history (rejected message) s = s

  unfoldable pub set_preset_error : Str → EditorState Num → EditorState Num
  set_preset_error message e = record e { preset_error = message }

  -- `instances.length > 0 && !confirm(…)`
  unfoldable pub declined : Bool → EditorState Num → Bool
  declined confirmed e = ltb 0 (length e.instances) && not confirmed

  unfoldable pub handle_load_preset :
      Registry Num → Bool → Preset Num → PresetState Num → PresetState Num
  unfolding declined
  handle_load_preset registry confirmed preset s =
      if declined confirmed s.editor
      then s
      else record s { editor = apply_instances registry preset.compressors s.editor }

  unfoldable pub handle_history_load :
      Registry Num → Bool → ConfigHistoryEntry Num → PresetState Num → PresetState Num
  unfolding declined
  handle_history_load registry confirmed entry s =
      if declined confirmed s.editor
      then s
      else record s { editor = apply_instances registry entry.compressors s.editor }

  -- Moving the focus to the field for the name is left out.
  unfoldable pub handle_history_to_preset :
      Registry Num → ConfigHistoryEntry Num → PresetState Num → PresetState Num
  unfolding set_preset_error
  handle_history_to_preset registry entry s = record s {
    editor = set_preset_error [] (apply_instances registry entry.compressors s.editor);
  }

  -- What `handleDeletePreset` does with the answers to its request and to that for the presets.
  unfoldable pub handle_delete_preset :
      Bool → Settled Unit → Settled (List (Preset Num)) → PresetState Num → PresetState Num
  unfolding set_preset_error load_presets
  handle_delete_preset false answer listed s = s
  handle_delete_preset true (resolved _) listed s = load_presets listed s
  handle_delete_preset true (rejected message) listed s = record s {
    editor = set_preset_error message s.editor;
  }

  -- `instances.map((inst) => ({ name: inst.name, options: inst.options }))`
  unfoldable pub stored : List (InstanceDraft Num) → List (CompressorInstance Num)
  stored instances =
      map (λ inst. record { name = inst.name; options = some inst.options }) instances

  unfoldable pub preset_request : PresetState Num → PresetRequest Num
  unfolding stored
  preset_request s = record {
    name = trim s.preset_name;
    visibility = s.visibility;
    compressors = stored s.editor.instances;
  }

  unfoldable pub set_preset_name : Str → PresetState Num → PresetState Num
  set_preset_name name s = record s { preset_name = name }

  unfoldable pub set_visibility : Visibility → PresetState Num → PresetState Num
  set_visibility visibility s = record s { visibility = visibility }

  unfoldable pub begin_save : PresetState Num → PresetState Num
  unfolding preset_request set_preset_error
  begin_save s = record s {
    saving = true;
    editor = set_preset_error [] s.editor;
    sent = preset_request s ∷ s.sent;
  }

  unfoldable pub after_save :
      Settled Unit → Settled (List (Preset Num)) → PresetState Num → PresetState Num
  unfolding load_presets set_preset_error
  after_save (resolved _) listed s = load_presets listed (record s { preset_name = [] })
  after_save (rejected message) listed s = record s { editor = set_preset_error message s.editor }

  unfoldable pub end_save : PresetState Num → PresetState Num
  end_save s = record s { saving = false }

  -- What `handleSavePreset` does with the answers to its request and to that for the presets.
  unfoldable pub handle_save_preset :
      Settled Unit → Settled (List (Preset Num)) → PresetState Num → PresetState Num
  unfolding begin_save after_save end_save
  handle_save_preset answer listed s =
      if str_eq (trim s.preset_name) [] || (length s.editor.instances == 0)
      then s
      else end_save (after_save answer listed (begin_save s))

-- `CompressorPackage`, with the fields that the page reads.
pub record PackageInfo : Type 0 where
  pub name : Str
  pub status : Str
  pub platform : Option Str

-- The loop over the packages, with `undefined` as `none`.
unfoldable pub platforms_from : Object (Option Str) → List PackageInfo → Object (Option Str)
platforms_from platforms [] = platforms
platforms_from platforms (pkg ∷ packages) =
    platforms_from
      (if not (str_eq pkg.status (codes "ready"))
        then platforms
        else put pkg.name pkg.platform platforms)
      packages

unfoldable pub package_platforms :
    Settled (List PackageInfo) → Object (Option Str) → Object (Option Str)
unfolding platforms_from
package_platforms (resolved (some packages)) old = platforms_from [] packages
package_platforms (resolved none) old = old
package_platforms (rejected message) old = old

-- `config?.hostPlatform || ''`
unfoldable pub host_platform : Settled Str → Str → Str
host_platform (resolved (some platform)) old = platform
host_platform (resolved none) old = []
host_platform (rejected message) old = old
