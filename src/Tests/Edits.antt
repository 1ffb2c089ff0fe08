-- ===== src/Tests/Edits.antt =====
-- The theorems on the edited configuration at the schemas of lib/instances.test.ts.
use bit_bench.Prelude.{
  ◌≡◌, refl, refl, ℕ, none, some, List, [], ◌∷◌, codes, arith, All, str_eq, has,
}
use bit_bench.Options.{num}
use bit_bench.Options.Naturals.{naturals}
use bit_bench.Editor.{
  EditorState, CompressorInstance, Action, add, remove, update, apply, expand, restore, act,
  add_instance, append_instance, clear_error, restore_drafts, set_instances, edit, apply_instances,
  initial_editor,
}
use bit_bench.Editor.Invariant.{IsWellFormed, edit-IsWellFormed}
use bit_bench.Editor.Loading.{IsCanonical, apply_instances-IsCanonical}
use bit_bench.Tests.Evidence.{all_distinct, distinct_names}
use bit_bench.Tests.Instances.{level, gzip, gorilla, registry}

abbrev stored : List (CompressorInstance ℕ)
stored =
    record { name = codes "gzip"; options = some (level 9) }
    ∷ record { name = codes "gone"; options = none }
    ∷ record { name = codes "gorilla"; options = none }
    ∷ []

abbrev actions : List (Action ℕ)
actions =
    restore (gzip 1 ∷ [])
    ∷ apply stored
    ∷ add (codes "gzip")
    ∷ update 2 (codes "level") (num 1)
    ∷ expand 0
    ∷ remove 0
    ∷ []

abbrev three : EditorState ℕ
three = record {
  instances = gzip 9 ∷ gorilla ∷ gzip 1 ∷ [];
  expanded_instance = some 2;
  error = [];
  preset_error = [];
}

edit-IsWellFormed_example : IsWellFormed (edit registry actions initial_editor)
edit-IsWellFormed_example =
    edit-IsWellFormed registry actions initial_editor (refl, (tt, (tt, (tt, (tt, (tt, tt))))))
      (omega arith, tt)

-- A configuration that comes late replaces what was added, and the expanded index is behind it.
restored_late :
    (edit registry
      (add (codes "gzip") ∷ add (codes "gzip") ∷ restore (gzip 1 ∷ []) ∷ [])
      initial_editor)
    ≡ record initial_editor { instances = gzip 1 ∷ []; expanded_instance = some 1 }
unfolding edit act add_instance append_instance clear_error restore_drafts set_instances
restored_late = refl

apply_instances-IsCanonical_example :
    All (IsCanonical registry) (apply_instances registry stored initial_editor).instances
apply_instances-IsCanonical_example =
    apply_instances-IsCanonical registry stored initial_editor
      (all_distinct (codes "level" ∷ []) (unfold distinct_names has str_eq in refl), (tt, tt))
      (λ e. cc)
