-- ===== src/Admin/Login.antt =====
-- The login of the administration (admin-frontend/src/pages/LoginPage.tsx).
pub mod Laws
use bit_bench.Prelude.{
  Option, none, some, [], Bool, true, false, not, ◌&&◌, Str, codes, str_eq, if◌then◌else◌,
}
use bit_bench.Api.{Response, is_ok}
use bit_bench.Platforms.{option_eq}
use bit_bench.Session.{Claims}

pub record LoginState : Type 0 where
  pub error : Str
  pub loading : Bool
  pub token : Option Str
  pub at_users : Bool

-- `err.error || 'Login failed'`, also for a body that is no JSON.
unfoldable pub login_error : Option Str → Str
login_error none = codes "Login failed"
login_error (some message) = if str_eq message [] then codes "Login failed" else message

module _ (error_of : Str → Option Str) (token_of : Str → Option Str) (decode : Str → Option Claims)
    (failure : Str → Str) where
  unfoldable pub check_role : Str → Option Str → LoginState → LoginState
  unfolding option_eq
  check_role token role s =
      if not (option_eq role (some (codes "admin")))
        && not (option_eq role (some (codes "professor")))
      then record s { error = codes "Admin or professor access required" }
      else record s { token = some token; at_users = true }

  -- The `try` behind the request. Where the body has no token, or the token no claims, decoding
  -- fails, with a message that depends on the body.
  unfoldable pub try_login : Response → LoginState → LoginState
  unfolding check_role login_error
  try_login r s =
      if not (is_ok r.status)
      then record s { error = login_error (error_of r.body) }
      else elim (token_of r.body) [
        | none ↦ record s { error = failure r.body }
        | some token ↦ elim (decode token) [
          | none ↦ record s { error = failure r.body }
          | some claims ↦ check_role token claims.role s
        ]
      ]

  unfoldable pub begin_login : LoginState → LoginState
  begin_login s = record s { error = []; loading = true }

  unfoldable pub end_login : LoginState → LoginState
  end_login s = record s { loading = false }

  unfoldable pub handle_login : Response → LoginState → LoginState
  unfolding try_login begin_login end_login
  handle_login r s = end_login (try_login r (begin_login s))
