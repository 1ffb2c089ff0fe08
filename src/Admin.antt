-- ===== src/Admin.antt =====
-- The administration (admin-frontend/src): its routes, its pages and their handlers. What a request
-- meets and what the user answers to a question are parameters.
pub mod Routing
pub mod Deletion
pub mod Users
pub mod Groups
pub mod Login
use bit_bench.Prelude.{
  ℕ, ◌≡◌, Option, none, some, List, [], ◌∷◌, ◌++◌, Bool, true, false, not, ◌&&◌, ◌||◌, Str, codes,
  str_eq, has, if◌then◌else◌, map, keep, length, ltb, ◌==◌,
}
use bit_bench.Api.{Response, Session, Settled, resolved, rejected, api_fetch}
use bit_bench.Permissions.{truthy}
use bit_bench.Platforms.{option_eq}
use bit_bench.Selection.{delete}
use bit_bench.Listing.{Benchmark, Page, or_nothing}

-- pages/BenchmarksPage.tsx
pub record BenchmarksState : Type 0 where
  pub benchmarks : List Benchmark
  pub loading : Bool
  pub next_cursor : Option Str
  pub selected : List Str

unfoldable pub set_loading : Bool → BenchmarksState → BenchmarksState
set_loading loading s = record s { loading = loading }

-- The body of the `try` of `load` behind the request; with a truthy cursor it appends.
unfoldable pub take_page : Bool → Settled Page → BenchmarksState → BenchmarksState
take_page true (resolved (some page)) s = record s {
  benchmarks = s.benchmarks ++ or_nothing page.benchmarks;
  next_cursor = page.next_cursor;
}
take_page false (resolved (some page)) s = record s {
  benchmarks = or_nothing page.benchmarks;
  next_cursor = page.next_cursor;
}
take_page append (resolved none) s = s
take_page append (rejected message) s = s

-- `load`, with what the server answers at a cursor; an empty cursor is none.
unfoldable pub load : (Option Str → Settled Page) → Option Str → BenchmarksState → BenchmarksState
unfolding set_loading take_page
load serve cursor s =
    let at = if truthy cursor then cursor else none in
    set_loading false (take_page (truthy cursor) (serve at) (set_loading true s))

unfoldable pub handle_cancel :
    (Option Str → Settled Page) → Bool → Settled Unit → BenchmarksState → BenchmarksState
unfolding load
handle_cancel serve false answer s = s
handle_cancel serve true (resolved _) s = load serve none s
handle_cancel serve true (rejected message) s = s

-- `setBenchmarks((prev) => prev.filter((b) => b.id !== id))`
unfoldable pub handle_delete : Bool → Settled Unit → Str → BenchmarksState → BenchmarksState
handle_delete false answer id s = s
handle_delete true (resolved _) id s = record s {
  benchmarks = keep (λ b. not (str_eq b.id id)) s.benchmarks;
}
handle_delete true (rejected message) id s = s

-- What a batch deletion does once its request is answered.
unfoldable pub drop_selected : Settled Unit → BenchmarksState → BenchmarksState
drop_selected (resolved _) s = record s {
  benchmarks = keep (λ b. not (has b.id s.selected)) s.benchmarks;
  selected = [];
}
drop_selected (rejected message) s = s

unfoldable pub handle_batch_delete : Bool → Settled Unit → BenchmarksState → BenchmarksState
unfolding drop_selected
handle_batch_delete confirmed answer s =
    if length s.selected == 0 then s else (if not confirmed then s else drop_selected answer s)

unfoldable pub toggle_select : Str → BenchmarksState → BenchmarksState
toggle_select id s = record s {
  selected = if has id s.selected then delete id s.selected else s.selected ++ id ∷ [];
}

-- `new Set(ids)`: the identifiers in order, each once.
unfoldable pub set_of : List Str → List Str → List Str
set_of seen [] = seen
set_of seen (id ∷ ids) = if has id seen then set_of seen ids else set_of (seen ++ id ∷ []) ids

unfoldable pub toggle_all_rows : BenchmarksState → BenchmarksState
unfolding set_of
toggle_all_rows s = record s {
  selected =
      if length s.selected == length s.benchmarks
      then []
      else set_of [] (map (λ b. b.id) s.benchmarks);
}

-- The state of the checkbox above the table.
unfoldable pub all_checked : BenchmarksState → Bool
all_checked s = (length s.selected == length s.benchmarks) && ltb 0 (length s.benchmarks)
