-- ===== src/Editor.antt =====
-- The compressor configuration that is edited on the upload page (pages/UploadPage.tsx), and what a
-- stored configuration becomes when it is loaded into the page.
pub mod Invariant
pub mod Expanded
pub mod Loading
use bit_bench.Prelude.{
  ℕ, ◌+◌, ◌-◌, Option, none, some, List, [], ◌∷◌, ◌++◌, Bool, true, false, not, Str, codes, length,
  take, keep_index, map_index, leb, ltb, ◌==◌, if◌then◌else◌,
}
use bit_bench.Objects.{Object, keys, get, put}
use bit_bench.Options.{Schema, Value, Values, default_options, canonical_options}
use bit_bench.Instances.{InstanceDraft, Registry, schema_of, max_instances_per_benchmark}

-- An instance as the server stores it; the options may be missing.
pub record CompressorInstance (Num : Type 0) : Type 0 where
  pub name : Str
  pub options : Option (Values Num)

pub record EditorState (Num : Type 0) : Type 0 where
  pub instances : List (InstanceDraft Num)
  pub expanded_instance : Option ℕ
  pub error : Str
  pub preset_error : Str

-- `item.options || {}`
unfoldable pub options_of : {Num : Type 0} → Option (Values Num) → Values Num
options_of none = []
options_of (some options) = options

-- `current === index ? null : current !== null && current > index ? current - 1 : current`
unfoldable pub shift_expanded : ℕ → Option ℕ → Option ℕ
shift_expanded index none = none
shift_expanded index (some current) =
    if current == index
    then none
    else (if ltb index current then some (current - 1) else some current)

-- `prev.filter((_, i) => i !== index)`
unfoldable pub without_index : {A : Type 0} → ℕ → List A → List A
without_index index xs = keep_index (λ i. not (i == index)) 0 xs

module _ {Num : Type 0} where
  -- The updater that `addInstance` passes to `setInstances`, with the new entry.
  unfoldable pub append_instance : InstanceDraft Num → EditorState Num → EditorState Num
  append_instance inst s =
      if leb max_instances_per_benchmark (length s.instances) then s else record s {
        instances = s.instances ++ inst ∷ [];
        expanded_instance = some (length (s.instances ++ inst ∷ []) - 1);
      }

  unfoldable pub clear_error : EditorState Num → EditorState Num
  clear_error s = record s { error = [] }

  unfoldable pub add_instance : Registry Num → Str → EditorState Num → EditorState Num
  unfolding append_instance clear_error
  add_instance registry name s =
      let options = default_options (schema_of name registry) in
      clear_error (append_instance (record { name = name; options = options }) s)

  unfoldable pub remove_instance : ℕ → EditorState Num → EditorState Num
  unfolding without_index shift_expanded
  remove_instance index s = record s {
    instances = without_index index s.instances;
    expanded_instance = shift_expanded index s.expanded_instance;
  }

  -- `{ ...inst, options: { ...inst.options, [key]: value } }` at the index
  unfoldable pub set_option : ℕ → Str → Value Num → ℕ → InstanceDraft Num → InstanceDraft Num
  set_option index key value i inst =
      if i == index then record inst { options = put key value inst.options } else inst

  unfoldable pub update_instance_option : ℕ → Str → Value Num → EditorState Num → EditorState Num
  unfolding set_option
  update_instance_option index key value s = record s {
    instances = map_index (set_option index key value) 0 s.instances;
  }

  -- The loop of `applyInstances`; an unknown compressor is skipped.
  unfoldable pub drafts_of : Registry Num → List (CompressorInstance Num) → List (InstanceDraft Num)
  unfolding options_of
  drafts_of registry [] = []
  drafts_of registry (item ∷ incoming) =
      let rest = drafts_of registry incoming in
      elim (get item.name registry) [
        | none ↦ rest
        | some schema ↦
            record {
              name = item.name;
              options = canonical_options schema (options_of item.options);
            }
            ∷ rest
      ]

  unfoldable pub apply_instances :
      Registry Num → List (CompressorInstance Num) → EditorState Num → EditorState Num
  unfolding drafts_of
  apply_instances registry incoming s =
      if length (keys registry) == 0
      then record s {
        preset_error = codes "The compressor list is still loading — try again in a moment.";
      }
      else record s {
        instances = take max_instances_per_benchmark (drafts_of registry incoming);
        expanded_instance = none;
        error = [];
      }

-- A click on an instance: it is expanded, or closed if it is the expanded one.
unfoldable pub toggle_expanded : {Num : Type 0} → ℕ → EditorState Num → EditorState Num
toggle_expanded index s = record s {
  expanded_instance = elim s.expanded_instance [
    | none ↦ some index
    | some current ↦ if current == index then none else some index
  ];
}

module _ {Num : Type 0} where
  unfoldable pub set_instances : List (InstanceDraft Num) → EditorState Num → EditorState Num
  set_instances drafts s = record s { instances = drafts }

  -- What restoring the configuration of the last time does with its drafts; the expanded index stays.
  unfoldable pub restore_drafts : List (InstanceDraft Num) → EditorState Num → EditorState Num
  unfolding set_instances
  restore_drafts drafts s =
      if ltb 0 (length drafts) then set_instances (take max_instances_per_benchmark drafts) s else s

-- What happens to the configuration. A preset or a history entry is loaded by `apply`; the drafts of
-- the configuration of the last time come by `restore`.
pub data Action (Num : Type 0) : Type 0 where
  add : Str → Action Num
  remove : ℕ → Action Num
  update : ℕ → Str → Value Num → Action Num
  apply : List (CompressorInstance Num) → Action Num
  expand : ℕ → Action Num
  restore : List (InstanceDraft Num) → Action Num

module _ {Num : Type 0} where
  -- There is one button for each instance: there is none to click on behind them.
  unfoldable pub act : Registry Num → Action Num → EditorState Num → EditorState Num
  unfolding add_instance remove_instance update_instance_option apply_instances toggle_expanded
      restore_drafts
  act registry (add name) s = add_instance registry name s
  act registry (remove index) s = remove_instance index s
  act registry (update index key value) s = update_instance_option index key value s
  act registry (apply incoming) s = apply_instances registry incoming s
  act registry (expand index) s =
      if ltb index (length s.instances) then toggle_expanded index s else s
  act registry (restore drafts) s = restore_drafts drafts s

  -- A sequence of actions, the first one first.
  unfoldable pub edit : Registry Num → List (Action Num) → EditorState Num → EditorState Num
  unfolding act
  edit registry [] s = s
  edit registry (a ∷ actions) s = edit registry actions (act registry a s)

  abbrev pub initial_editor : EditorState Num
  initial_editor = record {
    instances = [];
    expanded_instance = none;
    error = [];
    preset_error = [];
  }
