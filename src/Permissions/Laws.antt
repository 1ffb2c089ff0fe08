-- ===== src/Permissions/Laws.antt =====
-- The permission rules as the comments state them.
use bit_bench.Prelude.{
  ◌≡◌, ◌↔◌, ◌≢◌, ◌⊎◌, Option, none, some, [], true, Str, codes, str_eq_iff, arith,
}
use bit_bench.Platforms.{option_eq}
use bit_bench.Permissions.{
  BenchmarkPreset, CompressorPackage, group, Visibility, truthy, present, is_group,
  can_manage_preset, can_manage_package,
}

pub option_eq_iff : (s t : Option Str) → (option_eq s t ≡ true) ↔ (s ≡ t)
unfolding option_eq
option_eq_iff none none = ground arith
option_eq_iff none (some t) = ground arith
option_eq_iff (some s) none = ground arith
option_eq_iff (some s) (some t) = ground (arith, str_eq_iff s t)

pub truthy_iff : (s : Option Str) → (truthy s ≡ true) ↔ ((s ≢ none) × (s ≢ some []))
unfolding truthy
truthy_iff none = ground arith
truthy_iff (some s) = ground (arith, str_eq_iff s [])

pub present_iff : (s : Option Str) → (present s ≡ true) ↔ (s ≢ none)
unfolding present
present_iff none = ground arith
present_iff (some s) = ground arith

is_group_iff : (v : Visibility) → (is_group v ≡ true) ↔ (v ≡ group)
unfolding is_group
is_group_iff v = ground arith

-- A preset is managed by an administrator, by its owner, and by a professor of its group if it is
-- shared with the group; by no one else, and by no one without a role.
pub can_manage_preset_iff :
    (role user_id group_id : Option Str) (preset : BenchmarkPreset)
    → (can_manage_preset role user_id group_id preset ≡ true) ↔ (
        (role ≢ none)
        × (role ≢ some [])
        × ((role ≡ some (codes "admin"))
            ⊎ (user_id ≡ some preset.owner_id)
            ⊎ ((role ≡ some (codes "professor"))
                × (preset.visibility ≡ group)
                × (group_id ≢ none)
                × (group_id ≢ some [])
                × (preset.group_id ≡ group_id))))
unfolding can_manage_preset
can_manage_preset_iff role user_id group_id preset = ground (
  arith,
  truthy_iff role,
  truthy_iff group_id,
  present_iff user_id,
  is_group_iff preset.visibility,
  option_eq_iff role (some (codes "admin")),
  option_eq_iff role (some (codes "professor")),
  option_eq_iff (some preset.owner_id) user_id,
  option_eq_iff preset.group_id group_id,
)

-- A package is managed by an administrator, by its owner, and by a professor of its group; by no
-- one else, and by no one without a role. Here an empty identifier counts as none.
pub can_manage_package_iff :
    (role user_id group_id : Option Str) (pkg : CompressorPackage)
    → (can_manage_package role user_id group_id pkg ≡ true) ↔ (
        (role ≢ none)
        × (role ≢ some [])
        × ((role ≡ some (codes "admin"))
            ⊎ ((user_id ≢ some []) × (user_id ≡ some pkg.owner_id))
            ⊎ ((role ≡ some (codes "professor"))
                × (group_id ≢ none)
                × (group_id ≢ some [])
                × (pkg.group_id ≡ group_id))))
unfolding can_manage_package
can_manage_package_iff role user_id group_id pkg = ground (
  arith,
  truthy_iff role,
  truthy_iff group_id,
  truthy_iff user_id,
  truthy_iff pkg.group_id,
  option_eq_iff role (some (codes "admin")),
  option_eq_iff role (some (codes "professor")),
  option_eq_iff (some pkg.owner_id) user_id,
  option_eq_iff group_id pkg.group_id,
)
