-- ===== src/Backend/Sharing.antt =====
-- Who changes which preset on the server.
use bit_bench.Prelude.{◌≡◌, refl, ◌≢◌, some, [], ap, Str, codes, str_eq, str_eq_iff, arith}
use bit_bench.Permissions.{BenchmarkPreset, Visibility, private, group, is_group, can_manage_preset}
use bit_bench.Permissions.Laws.{option_eq_iff, truthy_iff, present_iff}
use bit_bench.Backend.Presets.{User, StoredPreset, server_can_manage_preset}

-- A visibility as the server holds it.
unfoldable pub visibility_text : Visibility → Str
visibility_text private = codes "private"
visibility_text group = codes "group"

visibility_agrees : (v : Visibility) → str_eq (visibility_text v) (codes "group") ≡ is_group v
unfolding visibility_text is_group str_eq
visibility_agrees private = refl
visibility_agrees group = refl

-- The preset as the front end's rule reads it.
abbrev pub shown_preset : {Config : Type 0} → Visibility → StoredPreset Config → BenchmarkPreset
shown_preset v p = record { owner_id = p.owner_id; group_id = p.group_id; visibility = v }

-- For an actor whose role and group are not empty texts, the front end offers to change a preset
-- exactly where the server lets the actor change it.
pub server_can_manage_preset-can_manage_preset :
    {Config : Type 0} (actor : User) (preset : StoredPreset Config) (v : Visibility)
    → preset.visibility ≡ visibility_text v
    → actor.role ≢ []
    → actor.group_id ≢ some []
    → can_manage_preset (some actor.role) (some actor.id) actor.group_id (shown_preset v preset)
      ≡ server_can_manage_preset actor preset
unfolding can_manage_preset server_can_manage_preset
server_can_manage_preset-can_manage_preset actor preset v shown role own = ground (
  arith,
  ap (λ s. str_eq s (codes "group")) shown,
  visibility_agrees v,
  truthy_iff (some actor.role),
  truthy_iff actor.group_id,
  present_iff (some actor.id),
  present_iff actor.group_id,
  present_iff preset.group_id,
  option_eq_iff (some actor.role) (some (codes "admin")),
  option_eq_iff (some actor.role) (some (codes "professor")),
  option_eq_iff (some preset.owner_id) (some actor.id),
  option_eq_iff preset.group_id actor.group_id,
  option_eq_iff actor.group_id preset.group_id,
  str_eq_iff actor.role (codes "admin"),
  str_eq_iff actor.role (codes "professor"),
  str_eq_iff actor.id preset.owner_id,
)
