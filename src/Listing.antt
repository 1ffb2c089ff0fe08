-- ===== src/Listing.antt =====
-- The list of benchmarks on the results page (pages/ResultsPage.tsx): loading it page by page,
-- polling the active ones, and the mode in which benchmarks are selected for comparison. What a
-- request meets is a parameter. A status is a string, since the poll stores whatever it is told.
pub mod Paging
pub mod Poll
use bit_bench.Prelude.{
  ℕ, Option, none, some, List, [], ◌∷◌, ◌++◌, Bool, true, false, not, ◌&&◌, ◌||◌, Str, codes,
  str_eq, if◌then◌else◌, map, keep, length, leb, join, split, ◌-◌,
}
use bit_bench.Api.{Settled, resolved, rejected}
use bit_bench.Permissions.{truthy}
use bit_bench.Selection.{toggle}

pub record Benchmark : Type 0 where
  pub id : Str
  pub name : Str
  pub status : Str
  pub progress : Option ℕ

-- `BenchmarkListResponse`
pub record Page : Type 0 where
  pub benchmarks : Option (List Benchmark)
  pub next_cursor : Option Str

pub record ResultsState : Type 0 where
  pub benchmarks : List Benchmark
  pub search : Str
  pub next_cursor : Option Str
  pub loading : Bool
  pub loading_more : Bool
  pub select_mode : Bool
  pub selected_ids : List Str
  pub max_compare : ℕ

-- `data.benchmarks ?? []`
unfoldable pub or_nothing : {A : Type 0} → Option (List A) → List A
or_nothing none = []
or_nothing (some xs) = xs

-- The answer to the request for the configuration: its `maxCompare`. Without a body the access
-- fails, and the failure is ignored.
unfoldable pub load_config : Settled ℕ → ResultsState → ResultsState
load_config (resolved (some max_compare)) s = record s { max_compare = max_compare }
load_config (resolved none) s = s
load_config (rejected message) s = s

-- The parameters of the request for a page of the list, in the order in which they are set.
unfoldable pub list_query : Str → Option Str → List (Str × Str)
list_query search cursor =
    (if str_eq search [] then [] else (codes "q", search) ∷ [])
    ++ elim cursor [ none ↦ [] | some c ↦ if str_eq c [] then [] else (codes "cursor", c) ∷ [] ]
    ++ (codes "limit", codes "20") ∷ []

unfoldable pub begin_load : Bool → ResultsState → ResultsState
begin_load true s = record s { loading_more = true }
begin_load false s = record s { loading = true }

-- The body of the `try` behind the request. Without a body `data.benchmarks` fails.
unfoldable pub show_page : Bool → Settled Page → ResultsState → ResultsState
unfolding or_nothing
show_page true (resolved (some page)) s = record s {
  benchmarks = s.benchmarks ++ or_nothing page.benchmarks;
  next_cursor = page.next_cursor;
}
show_page false (resolved (some page)) s = record s {
  benchmarks = or_nothing page.benchmarks;
  next_cursor = page.next_cursor;
}
show_page append (resolved none) s = s
show_page append (rejected message) s = s

-- The `finally` of the same.
unfoldable pub finish_load : ResultsState → ResultsState
finish_load s = record s { loading = false; loading_more = false }

-- `loadBenchmarks`, with what the server answers to a query.
unfoldable pub load_benchmarks :
    (List (Str × Str) → Settled Page) → Option Str → Bool → ResultsState → ResultsState
unfolding list_query begin_load show_page finish_load
load_benchmarks serve cursor append s =
    finish_load (show_page append (serve (list_query s.search cursor)) (begin_load append s))

-- Typing into the search field, which loads the list anew.
unfoldable pub set_search : (List (Str × Str) → Settled Page) → Str → ResultsState → ResultsState
unfolding load_benchmarks
set_search serve search_text s =
    load_benchmarks serve none false (record s { search = search_text })

-- A click on "Load More", which is there where the cursor is truthy.
unfoldable pub load_more_from :
    (List (Str × Str) → Settled Page) → Option Str → ResultsState → ResultsState
unfolding load_benchmarks
load_more_from serve cursor s = if truthy cursor then load_benchmarks serve cursor true s else s

unfoldable pub load_more : (List (Str × Str) → Settled Page) → ResultsState → ResultsState
unfolding load_more_from
load_more serve s = load_more_from serve s.next_cursor s

-- The answer to the request for the progress of a benchmark.
pub record Progress : Type 0 where
  pub progress : Option ℕ
  pub status : Option Str

unfoldable pub is_active : Benchmark → Bool
is_active b = str_eq b.status (codes "in_progress") || str_eq b.status (codes "queued")

-- `data.progress ?? bm.progress`
unfoldable pub or_else : {A : Type 0} → Option A → Option A → Option A
or_else none o = o
or_else (some a) o = some a

-- `data.status && data.status !== bm.status ? data.status : bm.status`
unfoldable pub new_status : Option Str → Str → Str
new_status none old = old
new_status (some status) old =
    if not (str_eq status []) && not (str_eq status old) then status else old

unfoldable pub update_benchmark : Progress → Benchmark → Benchmark
unfolding or_else new_status
update_benchmark news bm = record bm {
  progress = or_else news.progress bm.progress;
  status = new_status news.status bm.status;
}

-- `data.progress != null || data.status != null`
unfoldable pub has_news : Progress → Bool
has_news news = elim news.progress [
  | some p ↦ true
  | none ↦ elim news.status [ none ↦ false | some status ↦ true ]
]

-- What an answer does to the benchmark it is about.
unfoldable pub told : Settled Progress → Benchmark → Benchmark
unfolding update_benchmark has_news
told (resolved (some news)) bm = if has_news news then update_benchmark news bm else bm
told (resolved none) bm = bm
told (rejected message) bm = bm

-- The body of the loop over the active benchmarks: `prev.map((bm) => …)`.
unfoldable pub poll_one : Str → Settled Progress → List Benchmark → List Benchmark
unfolding told
poll_one id answer benchmarks =
    map (λ bm. if not (str_eq bm.id id) then bm else told answer bm) benchmarks

unfoldable pub poll_all :
    (Str → Settled Progress) → List Benchmark → List Benchmark → List Benchmark
unfolding poll_one
poll_all answer [] benchmarks = benchmarks
poll_all answer (b ∷ active) benchmarks =
    poll_all answer active (poll_one b.id (answer b.id) benchmarks)

-- One round of polling.
unfoldable pub poll : (Str → Settled Progress) → ResultsState → ResultsState
unfolding poll_all is_active
poll answer s = record s { benchmarks = poll_all answer (keep is_active s.benchmarks) s.benchmarks }

-- "Compare" in select mode: the page it leads to, if any.
unfoldable pub compare_target : ResultsState → Option Str
compare_target s =
    if leb 2 (length s.selected_ids)
    then some (codes "/compare?ids=" ++ join (codes ",") s.selected_ids)
    else none

unfoldable pub start_selecting : ResultsState → ResultsState
start_selecting s = record s { select_mode = true }

unfoldable pub cancel_selecting : ResultsState → ResultsState
cancel_selecting s = record s { select_mode = false; selected_ids = [] }

-- A click on a card: the state behind it, and the page it leads to, if any.
unfoldable pub click_card : Str → ResultsState → ResultsState × Option Str
unfolding toggle
click_card id s =
    if not s.select_mode
    then (s, some (codes "/results/" ++ id))
    else (record s { selected_ids = toggle s.max_compare id s.selected_ids }, none)

-- `word.charAt(0).toUpperCase() + word.slice(1)`, with `toUpperCase` on ASCII
unfoldable pub capitalize : Str → Str
capitalize [] = []
capitalize (c ∷ s) = (if leb b'a' c && leb c b'z' then c - 32 else c) ∷ s

-- What the badge of a benchmark reads. The decimal digits of a number are a parameter.
unfoldable pub status_label : (ℕ → Str) → Benchmark → Str
unfolding capitalize
status_label to_string b =
    let words = join (codes " ") (map capitalize (split b'_' b.status)) in
    if str_eq b.status (codes "in_progress")
    then elim b.progress [
      | none ↦ words
      | some progress ↦ words ++ codes " (" ++ to_string progress ++ codes "%)"
    ]
    else words
