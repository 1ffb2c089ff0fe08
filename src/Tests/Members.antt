-- ===== src/Tests/Members.antt =====
-- The theorems on permissions at the members of lib/presets.test.ts and lib/packages.test.ts.
use bit_bench.Prelude.{◌≡◌, ◌≢◌, ◌↔◌, ◌⊎◌, Option, none, some, [], true, codes, Str}
use bit_bench.Permissions.{BenchmarkPreset, CompressorPackage, group, can_manage_preset}
use bit_bench.Permissions.Laws.{can_manage_preset_iff}

abbrev no_group : Option Str
no_group = none

abbrev preset : BenchmarkPreset
preset = record { owner_id = codes "u1"; group_id = some (codes "g1"); visibility = group }

abbrev pkg : CompressorPackage
pkg = record { owner_id = codes "u1"; group_id = some (codes "g1") }

professor_of_group :
    (can_manage_preset (some (codes "professor")) (some (codes "u2")) (some (codes "g1")) preset
      ≡ true)
    ↔ ((some (codes "professor") ≢ none)
        × (some (codes "professor") ≢ some [])
        × ((some (codes "professor") ≡ some (codes "admin"))
            ⊎ (some (codes "u2") ≡ some (codes "u1"))
            ⊎ ((some (codes "professor") ≡ some (codes "professor"))
                × (group ≡ group)
                × (some (codes "g1") ≢ none)
                × (some (codes "g1") ≢ some [])
                × (some (codes "g1") ≡ some (codes "g1")))))
professor_of_group =
    can_manage_preset_iff (some (codes "professor")) (some (codes "u2")) (some (codes "g1")) preset
