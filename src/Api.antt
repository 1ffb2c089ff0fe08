-- ===== src/Api.antt =====
-- What the three request functions of lib/api.ts make of a response. The JSON parser, the message
-- of its failure, and the reading of the field `error` are parameters. A body that is the JSON value
-- null is left out of `error_of`.
use bit_bench.Prelude.{
  ℕ, ◌≡◌, ◌≢◌, refl, inl, inr, Option, none, some, [], Bool, true, false, not, ◌&&◌, ◌||◌, Str,
  codes, str_eq, str_eq_iff, leb, ltb, ◌==◌, if◌then◌else◌, arith, Bool-cases,
}

pub record Response : Type 0 where
  pub status : ℕ
  pub status_text : Str
  pub body : Str

-- The token of the session (stores/auth-store.ts), and whether the page has moved to the
-- login. The stored user, which a logout clears as well, is left out.
pub record Session : Type 0 where
  pub token : Option Str
  pub at_login : Bool

-- How a promise ends; `undefined` is `none`.
pub data Settled (Json : Type 0) : Type 0 where
  resolved : Option Json → Settled Json
  rejected : Str → Settled Json

unfoldable pub log_out : Session → Session
log_out s = record { token = none; at_login = true }

-- `res.ok`
unfoldable pub is_ok : ℕ → Bool
is_ok status = leb 200 status && ltb status 300

module _ {Json : Type 0} (parse : Str → Option Json) (syntax_error : Str → Str)
    (error_of : Json → Option Str) where
  -- `res.json()`
  unfoldable pub parsed : Str → Settled Json
  parsed body = elim (parse body) [
    | none ↦ rejected (syntax_error body)
    | some json ↦ resolved (some json)
  ]

  -- `err.error || res.statusText`
  unfoldable pub error_message : Response → Str
  error_message r = elim (parse r.body) [
    | none ↦ r.status_text
    | some json ↦ elim (error_of json) [ none ↦ r.status_text | some message ↦ message ]
  ]

  -- The body of a response with status 200 or 201.
  unfoldable pub text_or_nothing : Str → Settled Json
  unfolding parsed
  text_or_nothing body = if str_eq body [] then resolved none else parsed body

  -- `apiFetch` from the response on
  unfoldable pub api_fetch : Response → Session → Session × Settled Json
  unfolding is_ok log_out parsed error_message text_or_nothing
  api_fetch r s =
      if r.status == 401
      then (log_out s, rejected (codes "unauthorized"))
      else (if not (is_ok r.status)
          then (s, rejected (error_message r))
          else (if r.status == 204
              then (s, resolved none)
              else (if r.status == 200 || r.status == 201
                  then (s, text_or_nothing r.body)
                  else (s, parsed r.body))))

  -- `apiUpload` from the response on
  unfoldable pub api_upload : Response → Session → Session × Settled Json
  unfolding is_ok log_out parsed error_message text_or_nothing
  api_upload r s =
      if r.status == 401
      then (log_out s, rejected (codes "unauthorized"))
      else (if not (is_ok r.status)
          then (s, rejected (error_message r))
          else (if r.status == 200 || r.status == 201
              then (s, text_or_nothing r.body)
              else (s, parsed r.body)))

  -- `JSON.parse` under a `catch` that resolves with `undefined`
  unfoldable pub parsed_or_nothing : Str → Settled Json
  parsed_or_nothing body = resolved (parse body)

  -- `xhr.onload` of `apiUploadWithProgress`
  unfoldable pub api_upload_with_progress : Response → Session → Session × Settled Json
  unfolding is_ok log_out error_message parsed_or_nothing
  api_upload_with_progress r s =
      if r.status == 401
      then (log_out s, rejected (codes "unauthorized"))
      else (if is_ok r.status
          then (if r.status == 204 || str_eq r.body []
              then (s, resolved none)
              else (s, parsed_or_nothing r.body))
          else (s, rejected (error_message r)))

  -- Whichever function makes the request, a response with status 401 ends the session and moves to
  -- the login, and no other response changes the session.
  pub api-session :
      (r : Response) (s : Session)
      → let after = if r.status == 401 then log_out s else s in
        ((api_fetch r s).0 ≡ after)
        × ((api_upload r s).0 ≡ after)
        × ((api_upload_with_progress r s).0 ≡ after)
  unfolding api_fetch api_upload api_upload_with_progress
  api-session r s = ground arith

  parsed_json :
      (body : Str) (json : Json) → parse body ≡ some json → parsed body ≡ resolved (some json)
  unfolding parsed
  parsed_json body json e = rw (e, parsed) refl

  not_empty : (body : Str) → body ≢ [] → str_eq body [] ≡ false
  not_empty body ne = elim (Bool-cases (str_eq body [])) [
    | inl e ↦ absurd (ne ((str_eq_iff body []).0 e))
    | inr e ↦ e
  ]

  -- Where the status is not 204 and the body is JSON, not empty, the three functions do the same.
  pub api-agree :
      (r : Response) (s : Session) (json : Json)
      → r.status ≢ 204
      → r.body ≢ []
      → parse r.body ≡ some json
      → (api_upload r s ≡ api_fetch r s) × (api_upload_with_progress r s ≡ api_fetch r s)
  unfolding api_fetch api_upload api_upload_with_progress
  api-agree r s json status body is_json =
      ground (arith, parsed_json r.body json is_json, not_empty r.body body, status)
