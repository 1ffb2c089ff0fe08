-- ===== src/Session.antt =====
-- What the token says of its user (stores/auth-store.ts), in the frontend and in the administration
-- (admin-frontend/src/stores/auth-store.ts). Decoding a token is a parameter; the time of expiry is
-- a whole number of seconds.
use bit_bench.Prelude.{
  ℕ, ◌*◌, ◌≡◌, ◌↔◌, ◌⊎◌, Option, none, some, [], Bool, true, false, not, ◌&&◌, ◌||◌, Str, codes,
  str_eq, str_eq_iff, ltb, ◌==◌, if◌then◌else◌, arith,
}
use bit_bench.Platforms.{option_eq}

-- The claims that the code reads; one that is missing or of another type is `none`.
pub record Claims : Type 0 where
  pub exp : Option ℕ
  pub role : Option Str
  pub group_id : Option Str
  pub sub : Option Str

-- `Number(exp) * 1000 > now`, which a missing time of expiry makes false.
unfoldable pub is_current : Option ℕ → ℕ → Bool
is_current none now = false
is_current (some exp) now = ltb now (exp * 1000)

-- `payload.group_id !== '' ? payload.group_id : null`
unfoldable pub non_empty : Option Str → Option Str
non_empty none = none
non_empty (some s) = if str_eq s [] then none else some s

-- `!payload?.exp` is a missing time of expiry, or 0.
unfoldable pub has_exp : Option ℕ → Bool
has_exp none = false
has_exp (some exp) = not (exp == 0)

-- `isAuthenticated` of the administration, for decoded claims
unfoldable pub is_current_staff : Claims → ℕ → Bool
unfolding has_exp is_current
is_current_staff claims now =
    if not (has_exp claims.exp)
    then false
    else (option_eq claims.role (some (codes "admin"))
        || option_eq claims.role (some (codes "professor")))
      && is_current claims.exp now

module _ (decode : Str → Option Claims) where
  -- `claimsFromToken`: none for a missing, an empty or a malformed token
  unfoldable pub claims_from_token : Option Str → Option Claims
  claims_from_token none = none
  claims_from_token (some token) = if str_eq token [] then none else decode token

  unfoldable pub is_authenticated : Option Str → ℕ → Bool
  unfolding claims_from_token is_current
  is_authenticated token now = elim (claims_from_token token) [
    | none ↦ false
    | some claims ↦ is_current claims.exp now
  ]

  unfoldable pub get_role : Option Str → Option Str
  unfolding claims_from_token
  get_role token = elim (claims_from_token token) [ none ↦ none | some claims ↦ claims.role ]

  unfoldable pub get_group_id : Option Str → Option Str
  unfolding claims_from_token non_empty
  get_group_id token = elim (claims_from_token token) [
    | none ↦ none
    | some claims ↦ non_empty claims.group_id
  ]

  unfoldable pub get_user_id : Option Str → Option Str
  unfolding claims_from_token
  get_user_id token = elim (claims_from_token token) [ none ↦ none | some claims ↦ claims.sub ]

  unfoldable pub is_staff_authenticated : Option Str → ℕ → Bool
  unfolding claims_from_token is_current_staff
  is_staff_authenticated token now = elim (claims_from_token token) [
    | none ↦ false
    | some claims ↦ is_current_staff claims now
  ]

role_iff :
    (role : Option Str) (name : Str) → (option_eq role (some name) ≡ true) ↔ (role ≡ some name)
unfolding option_eq
role_iff none name = ground arith
role_iff (some s) name = ground (arith, str_eq_iff s name)

staff_iff :
    (claims : Claims) (now : ℕ)
    → (is_current_staff claims now ≡ true) ↔ (
        (is_current claims.exp now ≡ true)
        × ((claims.role ≡ some (codes "admin")) ⊎ (claims.role ≡ some (codes "professor"))))
unfolding is_current_staff is_current has_exp
staff_iff claims now =
    ground (arith, role_iff claims.role (codes "admin"), role_iff claims.role (codes "professor"))

module _ (decode : Str → Option Claims) where
  -- A token admits to the administration exactly when it admits to the frontend and its role is
  -- that of an administrator or a professor.
  pub is_staff_authenticated_iff :
      (token : Option Str) (now : ℕ)
      → (is_staff_authenticated decode token now ≡ true) ↔ (
          (is_authenticated decode token now ≡ true)
          × ((get_role decode token ≡ some (codes "admin"))
              ⊎ (get_role decode token ≡ some (codes "professor"))))
  unfolding is_staff_authenticated is_authenticated get_role
  is_staff_authenticated_iff token now = go (claims_from_token decode token)
    where
      go :
          (found : Option Claims)
          → ((elim found [ none ↦ false | some claims ↦ is_current_staff claims now ]) ≡ true) ↔ (
              ((elim found [ none ↦ false | some claims ↦ is_current claims.exp now ]) ≡ true)
              × (((elim found [ none ↦ none | some claims ↦ claims.role ]) ≡ some (codes "admin"))
                  ⊎ ((elim found [ none ↦ none | some claims ↦ claims.role ])
                      ≡ some (codes "professor"))))
      go none = ground arith
      go (some claims) = staff_iff claims now
