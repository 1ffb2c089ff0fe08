-- ===== src/Tests/Histories.antt =====
-- The theorems on the history of configurations and on the listed presets at concrete inputs, after
-- those of backend/internal/service/preset_service_test.go.
use bit_bench.Prelude.{
  ◌≡◌, refl, ◌⊎◌, ◌↔◌, inl, inr, some, List, [], ◌∷◌, ◌++◌, true, false, Str, codes, str_eq, map,
  arith, In,
}
use bit_bench.Backend.Presets.{User, StoredPreset, server_can_manage_preset}
use bit_bench.Backend.Visible.{list_presets, IsShared, In-list_presets}
use bit_bench.Backend.History.{UsedInstance, fingerprint_config, user_history}
use bit_bench.Backend.History.Order.{differs}
use bit_bench.Backend.History.Recent.{Usage, recorded, used, user_history-used}

abbrev hash : List (Str × Str) → Str
hash [] = []
hash ((name, options) ∷ rest) = name ++ codes ":" ++ options ++ codes ";" ++ hash rest

abbrev gzip_9 : Str → UsedInstance Str
gzip_9 label = record {
  name = codes "gzip";
  options = codes "9";
  label = label;
  platform = [];
  emulated = false;
}

abbrev zstd_3 : UsedInstance Str
zstd_3 = record {
  name = codes "zstd";
  options = codes "3";
  label = codes "zstd";
  platform = [];
  emulated = false;
}

-- gzip, then zstd, then gzip again under another label, with a use by somebody else between.
abbrev uses : List (Usage Str)
uses =
    record {
      user = codes "ann";
      instances = gzip_9 (codes "Gzip #1") ∷ [];
      at = 9;
      new_id = codes "d";
    }
    ∷ record { user = codes "bob"; instances = zstd_3 ∷ []; at = 7; new_id = codes "c" }
    ∷ record { user = codes "ann"; instances = zstd_3 ∷ []; at = 5; new_id = codes "b" }
    ∷ record {
      user = codes "ann";
      instances = gzip_9 (codes "gzip") ∷ [];
      at = 2;
      new_id = codes "a";
    }
    ∷ []

user_history-used_example :
    map
      (λ r. fingerprint_config hash r.compressors)
      (user_history (codes "ann") (recorded hash uses))
    ≡ codes "gzip:9;" ∷ codes "zstd:3;" ∷ []
unfolding used fingerprint_config str_eq
user_history-used_example = user_history-used hash uses (codes "ann") (
  (
    (omega arith, differs (codes "c") (codes "d") refl),
    (
      (omega arith, differs (codes "b") (codes "d") refl),
      ((omega arith, differs (codes "a") (codes "d") refl), tt),
    ),
  ),
  (
    (
      (omega arith, differs (codes "b") (codes "c") refl),
      ((omega arith, differs (codes "a") (codes "c") refl), tt),
    ),
    (((omega arith, differs (codes "a") (codes "b") refl), tt), (tt, tt)),
  ),
)

abbrev phd_student : User
phd_student = record { id = codes "p"; role = codes "phd"; group_id = some (codes "g") }

abbrev group_preset : StoredPreset Str
group_preset = record {
  id = codes "1";
  owner_id = codes "o";
  group_id = some (codes "g");
  name = codes "fast";
  visibility = codes "group";
  compressors = [];
}

In-list_presets_example : In group_preset (list_presets phd_student (group_preset ∷ [])) ↔ (
    In group_preset (group_preset ∷ [])
    × ((server_can_manage_preset phd_student group_preset ≡ true)
        ⊎ IsShared phd_student group_preset))
In-list_presets_example = In-list_presets phd_student (group_preset ∷ []) group_preset

-- The preset is listed, though the student may not change it.
lists_group_preset : In group_preset (list_presets phd_student (group_preset ∷ []))
lists_group_preset =
    (In-list_presets phd_student (group_preset ∷ []) group_preset).1
      (inl refl, inr (refl, (λ e. cc), refl))
