-- ===== src/Admin/Groups.antt =====
-- The groups of the administration (admin-frontend/src/pages/GroupsPage.tsx), and on the page of
-- users (admin-frontend/src/pages/UsersPage.tsx).
use bit_bench.Prelude.{
  ℕ, Option, none, some, List, [], ◌∷◌, Bool, true, false, Str, str_eq, find, keep, if◌then◌else◌,
}
use bit_bench.Api.{Settled, resolved, rejected}
use bit_bench.Platforms.{option_eq}
use bit_bench.Listing.{or_nothing}
use bit_bench.Admin.Users.{User}

pub record Group : Type 0 where
  pub id : Str
  pub name : Str
  pub priority : ℕ

pub record GroupsState : Type 0 where
  pub groups : List Group
  pub users : List User
  pub loading : Bool
  pub show_form : Bool
  pub name : Str
  pub priority : ℕ
  pub error : Str
  pub editing_id : Option Str
  pub edit_priority : ℕ

-- `loadData`: both requests have to succeed.
unfoldable pub take_data : Settled (List Group) → Settled (List User) → GroupsState → GroupsState
take_data (resolved g) (resolved u) s = record s {
  groups = or_nothing g;
  users = or_nothing u;
  loading = false;
}
take_data (resolved g) (rejected message) s = record s { loading = false }
take_data (rejected message) u s = record s { loading = false }

unfoldable pub create_group :
    Settled Unit → Settled (List Group) → Settled (List User) → GroupsState → GroupsState
unfolding take_data
create_group (resolved _) g u s =
    take_data g u (record s { error = []; show_form = false; name = []; priority = 0 })
create_group (rejected message) g u s = record s { error = message }

unfoldable pub start_group_edit : Group → GroupsState → GroupsState
start_group_edit g s = record s { editing_id = some g.id; edit_priority = g.priority }

unfoldable pub cancel_group_edit : GroupsState → GroupsState
cancel_group_edit s = record s { editing_id = none; edit_priority = 0 }

unfoldable pub save_group_edit :
    Settled Unit → Settled (List Group) → Settled (List User) → GroupsState → GroupsState
unfolding take_data
save_group_edit (resolved _) g u s = take_data g u (record s { editing_id = none })
save_group_edit (rejected message) g u s = s

unfoldable pub delete_group :
    Bool → Settled Unit → Settled (List Group) → Settled (List User) → GroupsState → GroupsState
unfolding take_data
delete_group false answer g u s = s
delete_group true (resolved _) g u s = take_data g u s
delete_group true (rejected message) g u s = s

unfoldable pub users_in_group : Str → List User → List User
unfolding option_eq
users_in_group group_id users = keep (λ u. option_eq u.group_id (some group_id)) users

-- `loadGroups` of the page of users: a failure keeps the last groups.
unfoldable pub load_groups : Settled (List Group) → List Group → List Group
load_groups (resolved data_or_null) groups = or_nothing data_or_null
load_groups (rejected message) groups = groups

-- `groups.find(g => g.id === u.group_id)?.name || u.group_id`
unfoldable pub name_or_id : Str → Option Group → Str
name_or_id id none = id
name_or_id id (some g) = if str_eq g.name [] then id else g.name

-- What the table of users shows of a user's group; 8212 is the dash.
unfoldable pub group_cell : List Group → User → Str
unfolding name_or_id
group_cell groups u = elim u.group_id [
  | none ↦ 8212 ∷ []
  | some id ↦ if str_eq id [] then 8212 ∷ [] else name_or_id id (find (λ g. str_eq g.id id) groups)
]
