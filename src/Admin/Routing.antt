-- ===== src/Admin/Routing.antt =====
-- Which page the administration shows (admin-frontend/src/App.tsx).
use bit_bench.Prelude.{
  ℕ, zero, suc, ◌≡◌, refl, subst, sym, inl, inr, Option, none, some, List, [], ◌∷◌, Bool, true,
  false, not, ◌||◌, Str, codes, str_eq, has, if◌then◌else◌, Bool-cases,
}
use bit_bench.Platforms.{option_eq}
use bit_bench.Session.{Claims, get_role, is_staff_authenticated, is_staff_authenticated_iff}

-- The paths of the application; any other path is `elsewhere`.
pub data Route : Type 0 where
  login users groups benchmarks elsewhere : Route

pub data View : Type 0 where
  shown : Route → View
  redirect : Route → View

-- `!role || !roles.includes(role)`
unfoldable pub lacks_role : List Str → Option Str → Bool
lacks_role roles none = true
lacks_role roles (some role) = str_eq role [] || not (has role roles)

abbrev pub staff : List Str
staff = codes "admin" ∷ codes "professor" ∷ []

abbrev pub admins : List Str
admins = codes "admin" ∷ []

-- What `isAuthenticated` and `getRole` say.
module _ (is_staff : Bool) (role : Option Str) where
  -- `ProtectedRoute`
  unfoldable pub protected_route : List Str → View → View
  unfolding lacks_role
  protected_route roles children =
      if not is_staff
      then redirect login
      else (if lacks_role roles role then redirect users else children)

  -- `App`: what a path leads to. The pages stand inside the layout, which is protected itself.
  unfoldable pub view_of : Route → View
  unfolding protected_route
  view_of login = shown login
  view_of users = protected_route staff (protected_route staff (shown users))
  view_of groups = protected_route staff (protected_route admins (shown groups))
  view_of benchmarks = protected_route staff (protected_route admins (shown benchmarks))
  view_of elsewhere = redirect users

  -- Following redirects, at most `n` of them.
  unfoldable pub follow : ℕ → View → Option Route
  unfolding view_of
  follow n (shown route) = some route
  follow zero (redirect route) = none
  follow (suc n) (redirect route) = follow n (view_of route)

-- The page that a user who asks for another one is meant to see.
abbrev pub destination : Bool → Bool → Route → Route
destination is_staff is_admin login = login
destination false is_admin route = login
destination true true groups = groups
destination true true benchmarks = benchmarks
destination true is_admin route = users

follow_stranger :
    (role : Option Str) (route : Route) (b : Bool)
    → follow false role 2 (view_of false role route) ≡ some (destination false b route)
unfolding follow view_of protected_route
follow_stranger role login b = refl
follow_stranger role users b = refl
follow_stranger role groups b = refl
follow_stranger role benchmarks b = refl
follow_stranger role elsewhere b = refl

follow_admin :
    (route : Route)
    → let role = some (codes "admin") in
      follow true role 2 (view_of true role route) ≡ some (destination true true route)
unfolding follow view_of protected_route lacks_role has str_eq
follow_admin login = refl
follow_admin users = refl
follow_admin groups = refl
follow_admin benchmarks = refl
follow_admin elsewhere = refl

follow_professor :
    (route : Route)
    → let role = some (codes "professor") in
      follow true role 2 (view_of true role route) ≡ some (destination true false route)
unfolding follow view_of protected_route lacks_role has str_eq
follow_professor login = refl
follow_professor users = refl
follow_professor groups = refl
follow_professor benchmarks = refl
follow_professor elsewhere = refl

-- `follow` from a path, for a given answer of `isAuthenticated` and `getRole`, ends at a page.
abbrev EndsAt : Bool → Option Str → Route → Type 0
EndsAt is_staff role route =
    follow is_staff role 2 (view_of is_staff role route)
    ≡ some (destination is_staff (option_eq role (some (codes "admin"))) route)

admin-EndsAt : (route : Route) → EndsAt true (some (codes "admin")) route
unfolding option_eq str_eq
admin-EndsAt route = follow_admin route

professor-EndsAt : (route : Route) → EndsAt true (some (codes "professor")) route
unfolding option_eq str_eq
professor-EndsAt route = follow_professor route

-- Whatever page of the administration is asked for, at most two redirects lead to one that is shown:
-- the login to whoever is not authenticated as staff; the page itself to an administrator; and the
-- users to a professor, and for an unknown path.
pub follow-destination :
    (decode : Str → Option Claims) (token : Option Str) (now : ℕ) (route : Route)
    → let is_staff = is_staff_authenticated decode token now in
      let role = get_role decode token in
      follow is_staff role 2 (view_of is_staff role route)
      ≡ some (destination is_staff (option_eq role (some (codes "admin"))) route)
follow-destination decode token now route =
    elim (Bool-cases (is_staff_authenticated decode token now)) [
      | inr e ↦
          let role = get_role decode token in
          subst (λ b. EndsAt b role route) (sym e)
            (follow_stranger role route (option_eq role (some (codes "admin"))))
      | inl e ↦ elim ((is_staff_authenticated_iff decode token now).0 e).1 [
        | inl r ↦
            subst (λ b. EndsAt b (get_role decode token) route) (sym e)
              (subst (λ role. EndsAt true role route) (sym r) (admin-EndsAt route))
        | inr r ↦
            subst (λ b. EndsAt b (get_role decode token) route) (sym e)
              (subst (λ role. EndsAt true role route) (sym r) (professor-EndsAt route))
      ]
    ]
