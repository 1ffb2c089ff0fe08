-- ===== src/Tests/Stores.antt =====
-- The theorems on the server's presets at concrete inputs.
use bit_bench.Prelude.{◌≡◌, refl, ◌≢◌, ℕ, none, some, [], ◌∷◌, codes, str_eq, All, trim, to_lower}
use bit_bench.Permissions.{can_manage_preset, group}
use bit_bench.Backend.{Result, ok, error}
use bit_bench.Permissions.{present}
use bit_bench.Backend.Strings.{is_ascii, trim_space}
use bit_bench.Backend.Presets.{
  User, StoredPreset, PresetError, conflict, PresetUpdate, server_can_manage_preset, create_preset,
  update_preset, new_preset, insert_preset, validate_name, validate_visibility, name_taken,
}
use bit_bench.Backend.Sharing.{
  visibility_text, shown_preset, server_can_manage_preset-can_manage_preset,
}
use bit_bench.Backend.Updates.{Contract, update_preset_lem}
use bit_bench.Backend.Stores.{Reach, start, next, created, Reach-IsSound}
use bit_bench.Backend.Keys.{IsUnique, Reach-IsUnique}
use bit_bench.Backend.History.Order.{differs}
use bit_bench.Backend.Sound.{IsSound}
use bit_bench.Tests.Servers.{integers}

abbrev owner : User
owner = record { id = codes "u1"; role = codes "student"; group_id = some (codes "g1") }

abbrev professor : User
professor = record { id = codes "u2"; role = codes "professor"; group_id = some (codes "g1") }

abbrev shared : StoredPreset ℕ
shared = record {
  id = codes "p1";
  owner_id = codes "u1";
  group_id = some (codes "g1");
  name = codes "Fast";
  visibility = codes "group";
  compressors = 1;
}

abbrev take_body : User → ℕ → Result PresetError ℕ
take_body actor body = ok body

abbrev rename : PresetUpdate ℕ
rename = record { name = some (codes "Slow"); visibility = none; compressors = none }

update_preset_lem_example :
    Contract professor
      (codes "p1")
      (shared ∷ [])
      (update_preset take_body professor (codes "p1") rename (shared ∷ []))
update_preset_lem_example = update_preset_lem take_body professor (codes "p1") rename (shared ∷ [])

server_can_manage_preset-can_manage_preset_example :
    can_manage_preset
      (some professor.role)
      (some professor.id)
      professor.group_id
      (shown_preset group shared)
    ≡ server_can_manage_preset professor shared
server_can_manage_preset-can_manage_preset_example =
    server_can_manage_preset-can_manage_preset professor shared group
      (unfold visibility_text in refl) (λ e. cc) some_group
  where
    some_group : professor.group_id ≢ some []
    some_group e = cc

creates :
    shared ∷ []
    ≡ (create_preset take_body owner (codes "p1") (codes " Fast ") (codes "group") 1 []).0
unfolding create_preset new_preset insert_preset validate_name validate_visibility name_taken
    trim_space is_ascii trim present str_eq
creates = refl

abbrev quiet : StoredPreset ℕ
quiet = record shared { id = codes "p2"; name = codes "Slow"; visibility = codes "private" }

creates_another :
    quiet ∷ shared ∷ []
    ≡ (create_preset take_body owner
        (codes "p2")
        (codes "Slow")
        (codes "private")
        1
        (shared ∷ [])).0
unfolding create_preset new_preset insert_preset validate_name validate_visibility name_taken
    trim_space is_ascii trim present to_lower str_eq
creates_another = refl

reaches : Reach take_body (quiet ∷ shared ∷ [])
reaches =
    next (shared ∷ []) (quiet ∷ shared ∷ [])
      (next [] (shared ∷ []) start
        (created owner (codes "p1") (codes " Fast ") (codes "group") 1 [] (shared ∷ []) tt creates))
      (created owner (codes "p2") (codes "Slow") (codes "private") 1 (shared ∷ [])
        (quiet ∷ shared ∷ []) (differs (codes "p1") (codes "p2") (unfold str_eq in refl), tt)
        creates_another)

Reach-IsSound_example : All IsSound (quiet ∷ shared ∷ [])
Reach-IsSound_example = Reach-IsSound take_body (quiet ∷ shared ∷ []) reaches

Reach-IsUnique_example : IsUnique (quiet ∷ shared ∷ [])
Reach-IsUnique_example = Reach-IsUnique take_body (quiet ∷ shared ∷ []) reaches

-- The owner has the name already, but for its case.
refuses :
    (create_preset take_body owner (codes "p3") (codes "FAST") (codes "private") 1 (shared ∷ [])).1
    ≡ error conflict
unfolding create_preset new_preset insert_preset validate_name validate_visibility name_taken
    trim_space is_ascii trim present to_lower str_eq
refuses = refl
