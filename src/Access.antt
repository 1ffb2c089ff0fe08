-- ===== src/Access.antt =====
-- Getting in and out of the frontend: its routes (App.tsx), the login (pages/LoginPage.tsx), the
-- logout of the layout (components/layout/AppLayout.tsx), and the setters of stores/auth-store.ts.
pub mod Laws
use bit_bench.Prelude.{
  ℕ, zero, suc, Option, none, some, List, [], Bool, true, false, not, Str, codes, if◌then◌else◌,
}
use bit_bench.Api.{Response, Session, Settled, resolved, rejected, api_fetch, log_out}
use bit_bench.Session.{Claims, is_authenticated}

pub data Route : Type 0 where
  login upload compressors results compare status elsewhere : Route
  benchmark : Str → Route

pub data View : Type 0 where
  shown : Route → View
  redirect : Route → View

-- `ProtectedRoute`
unfoldable pub protected_view : Bool → View → View
protected_view authenticated children = if not authenticated then redirect login else children

-- `App`: every page but the login stands inside the layout, which is protected.
unfoldable pub view_of : Bool → Route → View
unfolding protected_view
view_of authenticated login = shown login
view_of authenticated elsewhere = redirect upload
view_of authenticated route = protected_view authenticated (shown route)

-- Following redirects, at most `n` of them.
unfoldable pub follow : Bool → ℕ → View → Option Route
unfolding view_of
follow authenticated n (shown route) = some route
follow authenticated zero (redirect route) = none
follow authenticated (suc n) (redirect route) = follow authenticated n (view_of authenticated route)

unfoldable pub set_token : Str → Session → Session
set_token token s = record s { token = some token }

-- The page of the login, and the page that the router is at.
pub record LoginState : Type 0 where
  pub session : Session
  pub error : Str
  pub loading : Bool
  pub at_upload : Bool

unfoldable pub begin_login : LoginState → LoginState
begin_login s = record s { error = []; loading = true }

module _ {Json : Type 0} (token_of : Json → Str) (undefined_error : Str) where
  -- `setToken(res.token)` and the rest of the `try`; without a body the access fails.
  unfoldable pub take_token : Session × Settled Json → LoginState → LoginState
  unfolding set_token
  take_token (session, resolved (some json)) s = record s {
    session = set_token (token_of json) session;
    at_upload = true;
  }
  take_token (session, resolved none) s = record s { session = session; error = undefined_error }
  take_token (session, rejected message) s = record s { session = session; error = message }

  unfoldable pub end_login : LoginState → LoginState
  end_login s = record s { loading = false }

  module _ (parse : Str → Option Json) (syntax_error : Str → Str)
      (error_of : Json → Option Str) where
    -- `handleSubmit`, with the response to its request
    unfoldable pub handle_login : Response → LoginState → LoginState
    unfolding begin_login take_token end_login
    handle_login r s =
        end_login (take_token (api_fetch parse syntax_error error_of r s.session) (begin_login s))

    -- `handleLogout`: whatever becomes of the request, the session ends.
    unfoldable pub handle_logout : Response → Session → Session
    handle_logout r s = log_out (api_fetch parse syntax_error error_of r s).0
