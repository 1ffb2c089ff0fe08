-- ===== src/Tests/Listings.antt =====
-- The theorems on the list of benchmarks, at a server with two pages.
use bit_bench.Prelude.{
  ◌≡◌, refl, List, [], ◌∷◌, none, some, Str, codes, true, false, map, keep, if◌then◌else◌, length,
  ltb, str_eq,
}
use bit_bench.Api.{Settled, resolved}
use bit_bench.Permissions.{truthy}
use bit_bench.Listing.{
  Benchmark, Page, Progress, ResultsState, list_query, load_benchmarks, poll, is_active, or_nothing,
}
use bit_bench.Listing.Paging.{Lists, last, more, answering, load_pages, Shows, load_pages_lem}
use bit_bench.Listing.Poll.{followed, ids_of, poll_lem}

abbrev running : Str → Benchmark
running id = record { id = id; name = id; status = codes "in_progress"; progress = some 10 }

abbrev ready : Str → Benchmark
ready id = record { id = id; name = id; status = codes "ready"; progress = none }

-- A query with a cursor has one parameter more than one without.
abbrev two_pages : List (Str × Str) → Page
two_pages query =
    if ltb 1 (length query)
    then record { benchmarks = some (ready (codes "c") ∷ []); next_cursor = none }
    else record {
      benchmarks = some (running (codes "a") ∷ ready (codes "b") ∷ []);
      next_cursor = some (codes "2");
    }

abbrev everything : List Benchmark
everything = running (codes "a") ∷ ready (codes "b") ∷ ready (codes "c") ∷ []

abbrev start : ResultsState
start = record {
  benchmarks = [];
  search = [];
  next_cursor = none;
  loading = true;
  loading_more = false;
  select_mode = false;
  selected_ids = [];
  max_compare = 5;
}

listing : Lists two_pages [] none everything
unfolding list_query truthy or_nothing str_eq
listing = more none (ready (codes "c") ∷ []) refl (last (some (codes "2")) refl)

load_pages_lem_example : Shows two_pages everything (
    load_pages two_pages
      (false ∷ true ∷ [])
      (load_benchmarks (answering two_pages true) none false start))
load_pages_lem_example = load_pages_lem two_pages (false ∷ true ∷ []) everything start listing

-- Every benchmark is done, as far as the server says.
abbrev finished : Str → Settled Progress
finished id = resolved (some (record { progress = some 100; status = some (codes "ready") }))

abbrev loaded : ResultsState
loaded = record start { benchmarks = everything }

poll_lem_example :
    (poll finished loaded).benchmarks
    ≡ map (followed finished (ids_of (keep is_active everything))) everything
poll_lem_example = poll_lem finished loaded
