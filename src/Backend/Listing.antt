-- ===== src/Backend/Listing.antt =====
-- The pages of a user's benchmarks (backend/internal/handler/benchmarks.go and
-- backend/internal/repository/benchmark_repository.go). The rows are the user's, as the database
-- orders them; the filter by status, which the front end does not send, is left out, and so is a
-- query that fails.
use bit_bench.Prelude.{
  ◌≡◌, ℕ, suc, Option, none, some, List, [], ◌∷◌, Bool, true, ◌||◌, Str, codes, str_eq, map, keep,
  take, length, ltb, ◌==◌, if◌then◌else◌, ◌≢◌,
}
use bit_bench.Listing.{Benchmark, Page}

-- A row: what the front end is shown of it, and when it was created.
pub record Row : Type 0 where
  pub shown : Benchmark
  pub created_at : ℕ

-- What is used of the libraries: `Format(time.RFC3339Nano)`, `time.Parse`, `strconv.Atoi` with 0 for
-- an error, and the database's `name ILIKE`.
pub record Library : Type 0 where
  pub format : ℕ → Str
  pub parse : Str → Option ℕ
  pub atoi : Str → ℕ
  pub ilike : Str → Row → Bool
  pub parse-format : (t : ℕ) → parse (format t) ≡ some t
  pub format-ne-nil : (t : ℕ) → format t ≢ []
  pub atoi_20 : atoi (codes "20") ≡ 20

-- `q.Get(key)`: the first value, or the empty string.
unfoldable pub query_get : Str → List (Str × Str) → Str
query_get key [] = []
query_get key ((k, v) ∷ rest) = if str_eq key k then v else query_get key rest

-- `p.Cursor != nil` adds `created_at < $1`.
unfoldable pub is_before : Option ℕ → Row → Bool
is_before none row = true
is_before (some t) row = ltb row.created_at t

unfoldable pub default_limit : ℕ → ℕ
default_limit limit = if (limit == 0) || ltb 100 limit then 20 else limit

-- The time of the last row.
unfoldable pub last_time : List Row → Option ℕ
last_time [] = none
last_time (row ∷ []) = some row.created_at
last_time (row ∷ r ∷ rows) = last_time (r ∷ rows)

pub record ListResult : Type 0 where
  pub benchmarks : List Row
  pub next_cursor : Option ℕ

module _ (lib : Library) where
  -- `p.Search != ""` adds the test on the name.
  unfoldable pub is_match : Str → Row → Bool
  is_match search row = if str_eq search [] then true else lib.ilike search row

  -- The loop over the rows, of which one more than the limit is asked for.
  unfoldable pub first_rows : ℕ → List Row → ListResult
  unfolding last_time
  first_rows limit rows =
      let fetched = take (suc limit) rows in
      let benchmarks = take limit fetched in
      record {
        benchmarks = benchmarks;
        next_cursor = if ltb limit (length fetched) then last_time benchmarks else none;
      }

  -- `BenchmarkRepository.List`
  unfoldable pub list_rows : Option ℕ → Str → ℕ → List Row → ListResult
  unfolding first_rows default_limit is_before is_match
  list_rows cursor search limit rows =
      first_rows (default_limit limit) (keep (is_before cursor) (keep (is_match search) rows))

  -- `q.Get("cursor")`, parsed; what does not parse is no cursor.
  unfoldable pub cursor_of : Str → Option ℕ
  cursor_of text = if str_eq text [] then none else lib.parse text

  unfoldable pub format_cursor : Option ℕ → Option Str
  format_cursor none = none
  format_cursor (some t) = some (lib.format t)

  -- The handler `ListBenchmarks` for a user who is logged in.
  unfoldable pub list_benchmarks : List Row → List (Str × Str) → Page
  unfolding list_rows query_get cursor_of format_cursor
  list_benchmarks rows query =
      let result =
        list_rows (cursor_of (query_get (codes "cursor") query)) (query_get (codes "q") query)
          (lib.atoi (query_get (codes "limit") query)) rows in
      record {
        benchmarks = some (map (λ row. row.shown) result.benchmarks);
        next_cursor = format_cursor result.next_cursor;
      }
