-- ===== src/Permissions.antt =====
-- Who may edit or delete a preset or a compressor package (lib/presets.ts, lib/packages.ts). Roles
-- and identifiers are strings; a missing one (`null` or `undefined`) is `none`.
pub mod Laws
use bit_bench.Prelude.{
  ℕ, Option, none, some, List, [], ◌∷◌, ◌++◌, ◌-◌, Bool, true, false, not, ◌&&◌, ◌||◌, Str, codes,
  str_eq, if◌then◌else◌, length, ltb, take, join, ◌==◌,
}
use bit_bench.Prelude.Decimal.{decimal}
use bit_bench.Platforms.{option_eq}

pub data Visibility : Type 0 where
  private group : Visibility

-- The fields of a preset that the permission rule reads.
pub record BenchmarkPreset : Type 0 where
  pub owner_id : Str
  pub group_id : Option Str
  pub visibility : Visibility

pub record CompressorPackage : Type 0 where
  pub owner_id : Str
  pub group_id : Option Str

-- A missing or empty string is falsy.
unfoldable pub truthy : Option Str → Bool
truthy none = false
truthy (some s) = not (str_eq s [])

-- `x != null`
unfoldable pub present : Option Str → Bool
present none = false
present (some s) = true

unfoldable pub is_group : Visibility → Bool
is_group private = false
is_group group = true

unfoldable pub can_manage_preset : Option Str → Option Str → Option Str → BenchmarkPreset → Bool
can_manage_preset role user_id group_id preset =
    if not (truthy role)
    then false
    else (if option_eq role (some (codes "admin"))
          || (present user_id && option_eq (some preset.owner_id) user_id)
        then true
        else (if option_eq role (some (codes "professor"))
              && is_group preset.visibility
              && truthy group_id
              && option_eq preset.group_id group_id
            then true
            else false))

unfoldable pub can_manage_package : Option Str → Option Str → Option Str → CompressorPackage → Bool
can_manage_package role user_id group_id pkg =
    if not (truthy role)
    then false
    else (if option_eq role (some (codes "admin"))
        then true
        else (if truthy user_id && option_eq (some pkg.owner_id) user_id
            then true
            else (if option_eq role (some (codes "professor"))
                  && truthy group_id
                  && truthy pkg.group_id
                then option_eq group_id pkg.group_id
                else false)))

-- One line for a preset or a history entry, from the labels of its instances.
unfoldable pub summarize_instances : List Str → ℕ → Str
summarize_instances labels max =
    if length labels == 0
    then codes "No compressors"
    else join (codes ", ") (take max labels)
      ++ (if ltb max (length labels)
          then codes " +" ++ decimal (length labels - max) ++ codes " more"
          else [])

-- `packageStatusLabel`
unfoldable pub package_status_label : Str → Str
package_status_label status =
    if str_eq status (codes "building")
    then codes "Building"
    else (if str_eq status (codes "ready")
        then codes "Ready"
        else (if str_eq status (codes "failed") then codes "Failed" else status))
