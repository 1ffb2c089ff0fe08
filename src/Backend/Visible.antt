-- ===== src/Backend/Visible.antt =====
-- The presets that a user is shown (`ListVisible` of
-- backend/internal/repository/preset_repository.go and `List` of
-- backend/internal/service/preset_service.go). The order, by the time of the last update, is left out
-- with the times.
use bit_bench.Prelude.{
  ◌≡◌, ◌≢◌, ◌⊎◌, ◌↔◌, Option, none, some, List, Bool, true, ◌&&◌, ◌||◌, Str, codes, str_eq,
  str_eq_iff, keep, In, In-keep, if◌then◌else◌, arith,
}
use bit_bench.Platforms.{option_eq}
use bit_bench.Permissions.Laws.{option_eq_iff, present_iff}
use bit_bench.Backend.Presets.{User, StoredPreset, server_can_manage_preset}

module _ {Config : Type 0} where
  -- The condition of the query.
  unfoldable pub is_visible : Str → Option Str → Bool → StoredPreset Config → Bool
  unfolding option_eq
  is_visible user_id none is_admin p = if is_admin then true else str_eq p.owner_id user_id
  is_visible user_id (some g) is_admin p =
      if is_admin
      then true
      else str_eq p.owner_id user_id
        || (str_eq p.visibility (codes "group") && option_eq p.group_id (some g))

  unfoldable pub list_visible :
      Str → Option Str → Bool → List (StoredPreset Config) → List (StoredPreset Config)
  unfolding is_visible
  list_visible user_id group_id is_admin presets =
      keep (is_visible user_id group_id is_admin) presets

  -- `List`, for an actor who is not nil
  unfoldable pub list_presets : User → List (StoredPreset Config) → List (StoredPreset Config)
  unfolding list_visible
  list_presets actor presets =
      list_visible actor.id actor.group_id (str_eq actor.role (codes "admin")) presets

  -- Shared with the group of the actor.
  abbrev pub IsShared : User → StoredPreset Config → Type 0
  IsShared actor p =
      (p.visibility ≡ codes "group") × (actor.group_id ≢ none) × (p.group_id ≡ actor.group_id)

  is_visible_iff :
      (id role : Str) (g : Option Str) (p : StoredPreset Config)
      → let actor : User = record { id = id; role = role; group_id = g } in
        (is_visible id g (str_eq role (codes "admin")) p ≡ true)
        ↔ ((server_can_manage_preset actor p ≡ true) ⊎ IsShared actor p)
  unfolding is_visible server_can_manage_preset
  is_visible_iff id role none p = ground (
    arith,
    str_eq_iff role (codes "admin"),
    str_eq_iff p.owner_id id,
    str_eq_iff id p.owner_id,
    present_iff none,
  )
  is_visible_iff id role (some g) p = ground (
    arith,
    str_eq_iff role (codes "admin"),
    str_eq_iff p.owner_id id,
    str_eq_iff id p.owner_id,
    str_eq_iff p.visibility (codes "group"),
    option_eq_iff p.group_id (some g),
    option_eq_iff (some g) p.group_id,
  )

  -- A stored preset is listed for an actor exactly when the actor may manage it, or it is shared with
  -- the group of the actor.
  pub In-list_presets :
      (actor : User) (presets : List (StoredPreset Config)) (p : StoredPreset Config)
      → In p (list_presets actor presets)
        ↔ (In p presets × ((server_can_manage_preset actor p ≡ true) ⊎ IsShared actor p))
  unfolding list_presets list_visible
  In-list_presets actor presets p =
      let test = is_visible actor.id actor.group_id (str_eq actor.role (codes "admin")) in
      let (to, from) = In-keep test p presets in
      let (says, shows) = is_visible_iff actor.id actor.role actor.group_id p in
      ((λ m. ((to m).0, says (to m).1)), (λ h. from (h.0, shows h.1)))
