-- ===== src/Tests/Requests.antt =====
-- The theorems on responses, tokens and the selection at concrete ones.
use bit_bench.Prelude.{
  ◌≡◌, refl, ℕ, Option, none, some, [], ◌∷◌, false, Str, codes, arith, if◌then◌else◌, ◌==◌,
}
use bit_bench.Api.{
  Response, Session, log_out, api_fetch, api_upload, api_upload_with_progress, api-session,
  api-agree,
}
use bit_bench.Session.{Claims}

-- A parser that takes any text but the empty one as a string.
abbrev pub parse_text : Str → Option Str
parse_text [] = none
parse_text (c ∷ s) = some (c ∷ s)

abbrev pub no_error : Str → Option Str
no_error s = none

abbrev pub invalid : Str → Str
invalid s = codes "Unexpected end of JSON input"

abbrev pub signed_in : Session
signed_in = record { token = some (codes "t"); at_login = false }

abbrev pub response : ℕ → Response
response status = record { status = status; status_text = codes "Unauthorized"; body = codes "{}" }

expired_session :
    ((api_fetch parse_text invalid no_error (response 401) signed_in).0
      ≡ (if (401 == 401) then log_out signed_in else signed_in))
    × ((api_upload parse_text invalid no_error (response 401) signed_in).0
        ≡ (if (401 == 401) then log_out signed_in else signed_in))
    × ((api_upload_with_progress parse_text invalid no_error (response 401) signed_in).0
        ≡ (if (401 == 401) then log_out signed_in else signed_in))
expired_session = api-session parse_text invalid no_error (response 401) signed_in

one_answer :
    (api_upload parse_text invalid no_error (response 201) signed_in
      ≡ api_fetch parse_text invalid no_error (response 201) signed_in)
    × (api_upload_with_progress parse_text invalid no_error (response 201) signed_in
        ≡ api_fetch parse_text invalid no_error (response 201) signed_in)
one_answer =
    api-agree parse_text invalid no_error (response 201) signed_in (codes "{}") (λ e. omega arith)
      (λ e. cc) refl

abbrev pub professor : Str → Option Claims
professor token = some (record {
  exp = some 2000;
  role = some (codes "professor");
  group_id = some (codes "g1");
  sub = some (codes "u1");
})
