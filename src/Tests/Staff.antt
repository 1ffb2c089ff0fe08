-- ===== src/Tests/Staff.antt =====
-- The theorems on access and on the administration, at concrete tokens and tables.
use bit_bench.Prelude.{◌≡◌, refl, [], ◌∷◌, Option, none, some, Str, codes, true, false, str_eq}
use bit_bench.Api.{is_ok}
use bit_bench.Platforms.{option_eq}
use bit_bench.Session.{is_staff_authenticated, get_role}
use bit_bench.Listing.{Benchmark}
use bit_bench.Access
use bit_bench.Access.{handle_login}
use bit_bench.Admin.{BenchmarksState}
use bit_bench.Admin.Routing.{groups, follow, view_of, destination, follow-destination}
use bit_bench.Admin.Login
use bit_bench.Tests.Requests.{no_error, invalid, professor, signed_in, response}

follow-destination_example :
    follow
      (is_staff_authenticated professor (some (codes "t")) 1000)
      (get_role professor (some (codes "t")))
      2
      (view_of
        (is_staff_authenticated professor (some (codes "t")) 1000)
        (get_role professor (some (codes "t")))
        groups)
    ≡ some (
        destination
          (is_staff_authenticated professor (some (codes "t")) 1000)
          (option_eq (get_role professor (some (codes "t"))) (some (codes "admin")))
          groups)
follow-destination_example = follow-destination professor (some (codes "t")) 1000 groups

abbrev row : Str → Benchmark
row id = record { id = id; name = id; status = codes "ready"; progress = none }

-- Two benchmarks, of which the first is selected.
abbrev table : BenchmarksState
table = record {
  benchmarks = row (codes "a") ∷ row (codes "b") ∷ [];
  loading = false;
  next_cursor = none;
  selected = codes "a" ∷ [];
}

abbrev signed_out : Login.LoginState
signed_out = record { error = []; loading = false; token = none; at_users = false }

abbrev token_in : Str → Option Str
token_in body = some (codes "t")

let_in :
    (Login.handle_login no_error token_in professor invalid (response 200) signed_out).at_users
    ≡ true
unfolding Login.handle_login Login.try_login Login.begin_login Login.end_login Login.check_role
    is_ok option_eq str_eq
let_in = refl

abbrev visitor : Access.LoginState
visitor = record { session = signed_in; error = []; loading = false; at_upload = false }

abbrev string_token : Str → Str
string_token json = json
