-- ===== src/Access/Laws.antt =====
-- Where the routes lead, and what a login leaves behind.
use bit_bench.Prelude.{
  ◌≡◌, refl, sym, subst, Option, some, Bool, true, false, Str, codes, ◌==◌, arith,
}
use bit_bench.Api.{Response, Session, rejected, api_fetch, log_out}
use bit_bench.Access.{
  Route, login, upload, compressors, results, compare, status, elsewhere, benchmark, protected_view,
  view_of, follow, LoginState, begin_login, take_token, end_login, handle_login,
}

-- The page that a user who asks for another one sees.
abbrev pub destination : Bool → Route → Route
destination false route = login
destination true elsewhere = upload
destination true login = login
destination true upload = upload
destination true compressors = compressors
destination true results = results
destination true compare = compare
destination true status = status
destination true (benchmark id) = benchmark id

-- Whatever page of the frontend is asked for, at most two redirects lead to one that is shown: the
-- login to whoever is not authenticated, else the page itself, and the upload for an unknown path.
pub follow-destination_of :
    (authenticated : Bool) (route : Route)
    → follow authenticated 2 (view_of authenticated route) ≡ some (destination authenticated route)
unfolding follow view_of protected_view
follow-destination_of false login = refl
follow-destination_of false upload = refl
follow-destination_of false compressors = refl
follow-destination_of false results = refl
follow-destination_of false compare = refl
follow-destination_of false status = refl
follow-destination_of false elsewhere = refl
follow-destination_of false (benchmark id) = refl
follow-destination_of true login = refl
follow-destination_of true upload = refl
follow-destination_of true compressors = refl
follow-destination_of true results = refl
follow-destination_of true compare = refl
follow-destination_of true status = refl
follow-destination_of true elsewhere = refl
follow-destination_of true (benchmark id) = refl

module _ {Json : Type 0} (token_of : Json → Str) (undefined_error : Str) (parse : Str → Option Json)
    (syntax_error : Str → Str) (error_of : Json → Option Str) where
  unauthorized :
      (r : Response) (s : Session)
      → r.status ≡ 401
      → api_fetch parse syntax_error error_of r s ≡ (log_out s, rejected (codes "unauthorized"))
  unfolding api_fetch
  unauthorized r s e = let is_401 : (r.status == 401) ≡ true = ground (arith, e) in rw is_401 refl

  -- Where the server refuses the login with status 401, the message shown is "unauthorized",
  -- whatever the server's answer says; the session is ended, and the page is not left for the upload.
  pub handle_login-unauthorized :
      (r : Response) (s : LoginState)
      → r.status ≡ 401
      → let after = handle_login token_of undefined_error parse syntax_error error_of r s in
        (after.error ≡ codes "unauthorized")
        × (after.session ≡ log_out s.session)
        × (after.at_upload ≡ s.at_upload)
        × (after.loading ≡ false)
  unfolding handle_login begin_login take_token end_login
  handle_login-unauthorized r s e =
      subst
        (λ fetched.
          let after =
            end_login token_of undefined_error
              (take_token token_of undefined_error fetched (begin_login s)) in
          (after.error ≡ codes "unauthorized")
          × (after.session ≡ log_out s.session)
          × (after.at_upload ≡ s.at_upload)
          × (after.loading ≡ false))
        (sym (unauthorized r s.session e)) (refl, refl, refl, refl)
