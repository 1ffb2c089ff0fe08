-- ===== src/Presets/Laws.antt =====
-- Saving a preset from the upload page.
use bit_bench.Prelude.{
  str_eq, trim, ◌||◌, ◌≡◌, refl, inl, inr, none, some, List, [], ◌∷◌, false, Str, if◌then◌else◌,
  length, ◌==◌, Bool-cases,
}
use bit_bench.Api.{Settled, resolved, rejected}
use bit_bench.Instances.{Registry}
use bit_bench.Presets.{
  Preset, PresetState, preset_request, handle_save_preset, begin_save, after_save, end_save,
  set_preset_error, load_presets,
}

-- What is left of the name, and the message that is shown, behind a request.
abbrev pub kept_name : Settled Unit → Str → Str
kept_name (resolved _) name = []
kept_name (rejected message) name = name

abbrev pub shown_error : Settled Unit → Str
shown_error (resolved _) = []
shown_error (rejected message) = message

module _ {Num : Type 0} (registry : Registry Num) where
  -- Saving a preset, whether the request succeeds or not, leaves the configuration alone and ends
  -- with the page not saving if it was not; it sends one request exactly where the trimmed name is
  -- not empty and an instance is configured; and a failure's message is shown and the name kept.
  pub handle_save_preset_lem :
      (answer : Settled Unit) (listed : Settled (List (Preset Num))) (s : PresetState Num)
      → let blocked = str_eq (trim s.preset_name) [] || (length s.editor.instances == 0) in
        let after = handle_save_preset answer listed s in
        (after.editor.instances ≡ s.editor.instances)
        × (after.sent ≡ (if blocked then s.sent else preset_request s ∷ s.sent))
        × (after.saving ≡ (if blocked then s.saving else false))
        × (after.preset_name ≡ (if blocked then s.preset_name else kept_name answer s.preset_name))
        × (after.editor.preset_error
            ≡ (if blocked then s.editor.preset_error else shown_error answer))
  unfolding handle_save_preset begin_save after_save end_save set_preset_error load_presets
  handle_save_preset_lem answer listed s =
      elim (Bool-cases (str_eq (trim s.preset_name) [] || (length s.editor.instances == 0))) [
        | inl e ↦ rw e (refl, refl, refl, refl, refl)
        | inr e ↦ rw e (saved answer listed)
      ]
    where
      saved :
          (answer : Settled Unit) (listed : Settled (List (Preset Num)))
          → let after = end_save (after_save answer listed (begin_save s)) in
            (after.editor.instances ≡ s.editor.instances)
            × (after.sent ≡ preset_request s ∷ s.sent)
            × (after.saving ≡ false)
            × (after.preset_name ≡ kept_name answer s.preset_name)
            × (after.editor.preset_error ≡ shown_error answer)
      saved (rejected message) listed = (refl, refl, refl, refl, refl)
      saved (resolved _) (resolved (some l)) = (refl, refl, refl, refl, refl)
      saved (resolved _) (resolved none) = (refl, refl, refl, refl, refl)
      saved (resolved _) (rejected message) = (refl, refl, refl, refl, refl)
