-- ===== src/Admin/Users.antt =====
-- The users of the administration (admin-frontend/src/pages/UsersPage.tsx).
pub mod Laws
use bit_bench.Prelude.{
  ℕ, Option, none, some, List, [], ◌∷◌, Bool, true, false, not, ◌||◌, Str, codes, str_eq,
  if◌then◌else◌, length, ltb,
}
use bit_bench.Api.{Settled, resolved, rejected}
use bit_bench.Platforms.{option_eq}
use bit_bench.Listing.{or_nothing, capitalize}

pub data Role : Type 0 where
  student phd professor admin : Role

unfoldable pub role_name : Role → Str
role_name student = codes "student"
role_name phd = codes "phd"
role_name professor = codes "professor"
role_name admin = codes "admin"

-- `ALL_ROLES` and `SUBORDINATE_ROLES`
abbrev pub all_roles : List Role
all_roles = student ∷ phd ∷ professor ∷ admin ∷ []

abbrev pub subordinate_roles : List Role
subordinate_roles = student ∷ phd ∷ []

unfoldable pub role_label : Role → Str
unfolding role_name
role_label role = capitalize (role_name role)

pub record User : Type 0 where
  pub id : Str
  pub role : Role
  pub group_id : Option Str

-- The body of a request that changes a user.
pub data UserChange : Type 0 where
  edit_user : Role → UserChange
  edit_user_and_group : Role → Option Str → UserChange
  reset_password : Str → UserChange

pub record UsersState : Type 0 where
  pub users : List User
  pub loading : Bool
  pub show_form : Bool
  pub email : Str
  pub password : Str
  pub role : Role
  pub error : Str
  pub editing_id : Option Str
  pub edit_role : Role
  pub edit_group_id : Str

unfoldable pub role_options : Bool → List Role
role_options is_admin = if is_admin then all_roles else subordinate_roles

-- `isAdmin || u.role === 'student' || u.role === 'phd'`
unfoldable pub can_manage : Bool → User → Bool
unfolding role_name
can_manage is_admin u =
    is_admin
    || str_eq (role_name u.role) (codes "student")
    || str_eq (role_name u.role) (codes "phd")

unfoldable pub take_users : Settled (List User) → UsersState → UsersState
take_users (resolved users) s = record s { users = or_nothing users; loading = false }
take_users (rejected message) s = record s { loading = false }

-- What `handleCreate` does with the answers to its request and to that for the users.
unfoldable pub create_user : Settled Unit → Settled (List User) → UsersState → UsersState
unfolding take_users
create_user (resolved _) listed s =
    take_users listed
      (record s { error = []; show_form = false; email = []; password = []; role = student })
create_user (rejected message) listed s = record s { error = message }

unfoldable pub start_edit : User → UsersState → UsersState
start_edit u s = record s {
  editing_id = some u.id;
  edit_role = u.role;
  edit_group_id = elim u.group_id [ none ↦ [] | some group ↦ group ];
}

unfoldable pub cancel_edit : UsersState → UsersState
cancel_edit s = record s { editing_id = none; edit_role = student; edit_group_id = [] }

-- The body that `saveEdit` sends: only an administrator sets the group, `editGroupId || null`.
unfoldable pub edit_body : Bool → UsersState → UserChange
edit_body is_admin s =
    if is_admin
    then edit_user_and_group s.edit_role
        (if str_eq s.edit_group_id [] then none else some s.edit_group_id)
    else edit_user s.edit_role

unfoldable pub save_edit : Settled Unit → Settled (List User) → UsersState → UsersState
unfolding take_users
save_edit (resolved _) listed s = take_users listed (record s { editing_id = none })
save_edit (rejected message) listed s = s

unfoldable pub delete_user : Bool → Settled Unit → Settled (List User) → UsersState → UsersState
unfolding take_users
delete_user false answer listed s = s
delete_user true (resolved _) listed s = take_users listed s
delete_user true (rejected message) listed s = s

-- What becomes of the two prompts for a new password: the request, or a message.
pub data ResetOutcome : Type 0 where
  send : UserChange → ResetOutcome
  alert : Str → ResetOutcome

unfoldable pub confirm_password : Str → Option Str → ResetOutcome
unfolding option_eq
confirm_password new_password confirmed =
    if not (option_eq confirmed (some new_password))
    then alert (codes "Passwords do not match.")
    else send (reset_password new_password)

-- `handleResetPassword` up to the request; a dismissed prompt is `none`.
unfoldable pub handle_reset_password : Option Str → Option Str → ResetOutcome
unfolding confirm_password
handle_reset_password none confirmed = alert (codes "Password must be at least 6 characters.")
handle_reset_password (some new_password) confirmed =
    if str_eq new_password [] || ltb (length new_password) 6
    then alert (codes "Password must be at least 6 characters.")
    else confirm_password new_password confirmed
