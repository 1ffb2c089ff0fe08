-- ===== src/Backend/Pages.antt =====
-- The server's pages make up the whole list of the user's benchmarks that match the search.
use bit_bench.Prelude.{
  replicate, not, ◌≡◌, refl, inl, inr, Option, none, some, List, [], ◌∷◌, ◌++◌, true, false, ap,
  sym, ◌∙◌, subst, Bool-cases, Str, codes, str_eq, str_eq_iff, map, keep, take, drop, length, ltb,
  arith, ℕ, zero, suc, ◌<◌, ◌≤◌, append_assoc, take-append-drop, length-take, length-drop, ltb→lt,
  ltb→le, take_all,
}
use bit_bench.Permissions.{truthy}
use bit_bench.Listing.{Benchmark, Page, ResultsState, load_benchmarks, or_nothing, list_query}
use bit_bench.Listing.Paging.{
  Lists, last, more, page_at, ShowsAll, load_pages, answering, load_pages-ShowsAll,
}
use bit_bench.Backend.Listing.{
  Row, Library, ListResult, query_get, is_before, default_limit, last_time, is_match, first_rows,
  list_rows, cursor_of, format_cursor, list_benchmarks,
}
use bit_bench.Backend.Rows.{
  Descending, keep-after, last_time-append, not_lt, is_lt, take-take, shown-split, last_time-take,
  take-ne-nil, keep-Descending, keep_before_none,
}

module _ (lib : Library) (rows : List Row) where
  -- The answer that the handler writes.
  abbrev as_page : ListResult → Page
  as_page r = record {
    benchmarks = some (map (λ row. row.shown) r.benchmarks);
    next_cursor = format_cursor lib r.next_cursor;
  }

  -- The page of the rows from a cursor on.
  abbrev page_of : List Row → Page
  page_of left = record {
    benchmarks = some (map (λ row. row.shown) (first_rows lib 20 left).benchmarks);
    next_cursor = format_cursor lib (first_rows lib 20 left).next_cursor;
  }

  -- The handler's page for a cursor, a search and a limit.
  abbrev page_with : Option ℕ → Str → ℕ → Page
  page_with cursor search limit = record {
    benchmarks = some (map (λ row. row.shown) (list_rows lib cursor search limit rows).benchmarks);
    next_cursor = format_cursor lib (list_rows lib cursor search limit rows).next_cursor;
  }

  some_text : (t : ℕ) → str_eq (lib.format t) [] ≡ false
  some_text t = elim (Bool-cases (str_eq (lib.format t) [])) [
    | inl e ↦ absurd (lib.format-ne-nil t ((str_eq_iff (lib.format t) []).0 e))
    | inr e ↦ e
  ]

  asked_search :
      (search : Str) (cursor : Option ℕ)
      → query_get (codes "q") (list_query search (format_cursor lib cursor)) ≡ search
  unfolding query_get list_query format_cursor str_eq
  asked_search [] none = refl
  asked_search [] (some t) = rw (some_text t) refl
  asked_search (c ∷ search) none = refl
  asked_search (c ∷ search) (some t) = refl

  asked_cursor :
      (search : Str) (cursor : Option ℕ)
      → cursor_of lib (query_get (codes "cursor") (list_query search (format_cursor lib cursor)))
        ≡ cursor
  unfolding query_get list_query format_cursor cursor_of str_eq
  asked_cursor [] none = refl
  asked_cursor [] (some t) = rw (some_text t, some_text t) (lib.parse-format t)
  asked_cursor (c ∷ search) none = refl
  asked_cursor (c ∷ search) (some t) = rw (some_text t, some_text t) (lib.parse-format t)

  asked_limit :
      (search : Str) (cursor : Option ℕ)
      → query_get (codes "limit") (list_query search (format_cursor lib cursor)) ≡ codes "20"
  unfolding query_get list_query format_cursor str_eq
  asked_limit [] none = refl
  asked_limit [] (some t) = rw (some_text t) refl
  asked_limit (c ∷ search) none = refl
  asked_limit (c ∷ search) (some t) = rw (some_text t) refl

  list_rows_20 :
      (cursor : Option ℕ) (search : Str)
      → list_rows lib cursor search 20 rows
        ≡ first_rows lib 20 (keep (is_before cursor) (keep (is_match lib search) rows))
  unfolding list_rows default_limit
  list_rows_20 cursor search = refl

  asked :
      (search : Str) (cursor : Option ℕ)
      → page_at (list_benchmarks lib rows) search (format_cursor lib cursor)
        ≡ page_of (keep (is_before cursor) (keep (is_match lib search) rows))
  unfolding list_benchmarks
  asked search cursor =
      ap
        (λ c.
          page_with c (query_get (codes "q") (list_query search (format_cursor lib cursor)))
            (lib.atoi (query_get (codes "limit") (list_query search (format_cursor lib cursor)))))
        (asked_cursor search cursor)
      ∙ ap
          (λ q.
            page_with cursor q
              (lib.atoi (query_get (codes "limit") (list_query search (format_cursor lib cursor)))))
          (asked_search search cursor)
      ∙ ap (λ l. page_with cursor search l)
          (ap (λ l. lib.atoi l) (asked_limit search cursor) ∙ lib.atoi_20)
      ∙ ap
          (λ (r : ListResult). record {
            benchmarks = some (map (λ row. row.shown) r.benchmarks);
            next_cursor = format_cursor lib r.next_cursor;
          })
          (list_rows_20 cursor search)

  first_rows_last :
      (left : List Row)
      → length left ≤ 20
      → first_rows lib 20 left ≡ record { benchmarks = left; next_cursor = none }
  unfolding first_rows
  first_rows_last left h =
      let all = take_all 21 left (omega arith) in
      let few : ltb 20 (length (take 21 left)) ≡ false = rw all (not_lt 20 (length left) h) in
      rw (few, all, take_all 20 left h) refl

  first_rows_more :
      (left : List Row)
      → 20 < length left
      → first_rows lib 20 left
        ≡ record { benchmarks = take 20 left; next_cursor = last_time (take 20 left) }
  unfolding first_rows
  first_rows_more left h =
      let many : ltb 20 (length (take 21 left)) ≡ true =
        is_lt 20 (length (take 21 left)) (omega (arith, length-take 21 left)) in
      rw (many, take-take 20 21 left (omega arith)) refl

  -- The rows that match a search.
  abbrev pub matching : Str → List Row
  matching search = keep (is_match lib search) rows

  -- The benchmarks of rows, as the front end is shown them.
  abbrev pub shown_of : List Row → List Benchmark
  shown_of left = map (λ row. row.shown) left

  module _ (query : Str) (cursor : Option ℕ) (left : List Row)
      (rest : keep (is_before cursor) (matching query) ≡ left) where
    last_page :
        length left ≤ 20
        → Lists (list_benchmarks lib rows) query (format_cursor lib cursor) (shown_of left)
    unfolding truthy format_cursor or_nothing
    last_page few =
        let whole = asked query cursor ∙ ap page_of rest ∙ ap as_page (first_rows_last left few) in
        subst (Lists (list_benchmarks lib rows) query (format_cursor lib cursor))
          (ap (λ p. or_nothing p.benchmarks) whole)
          (last (format_cursor lib cursor) (ap (λ p. truthy p.next_cursor) whole))

    next_page :
        (t : ℕ)
        → 20 < length left
        → last_time (take 20 left) ≡ some t
        → Lists
            (list_benchmarks lib rows)
            query
            (format_cursor lib (some t))
            (shown_of (drop 20 left))
        → Lists (list_benchmarks lib rows) query (format_cursor lib cursor) (shown_of left)
    unfolding truthy format_cursor or_nothing
    next_page t many time behind =
        let whole =
          asked query cursor
          ∙ ap page_of rest
          ∙ ap as_page (
              first_rows_more left many
              ∙ ap (λ c. record { benchmarks = take 20 left; next_cursor = c }) time) in
        let next = ap (λ p. p.next_cursor) whole in
        subst (Lists (list_benchmarks lib rows) query (format_cursor lib cursor))
          (ap (λ p. or_nothing p.benchmarks ++ shown_of (drop 20 left)) whole ∙ shown-split 20 left)
          (more (format_cursor lib cursor) (shown_of (drop 20 left))
            (ap truthy next ∙ ap not (some_text t))
            (subst (λ c. Lists (list_benchmarks lib rows) query c (shown_of (drop 20 left)))
              (sym next) behind))

  pages_from :
      (fuel : ℕ) (query : Str) (cursor : Option ℕ) (before left : List Row)
      → length left ≤ fuel
      → Descending (matching query)
      → matching query ≡ before ++ left
      → keep (is_before cursor) (matching query) ≡ left
      → Lists (list_benchmarks lib rows) query (format_cursor lib cursor) (shown_of left)
  pages_from zero query cursor before left h d split rest =
      last_page query cursor left rest (omega arith)
  pages_from (suc fuel) query cursor before left h d split rest =
      elim (Bool-cases (ltb 20 (length left))) [
        | inr e ↦ last_page query cursor left rest (ltb→le 20 (length left) e)
        | inl e ↦
            let many = ltb→lt 20 (length left) e in
            let (t, time) = last_time-take 19 left (omega arith) in
            let split' : matching query ≡ (before ++ take 20 left) ++ drop 20 left =
              split
              ∙ ap (before ++◌) (sym (take-append-drop 20 left))
              ∙ sym (append_assoc before (take 20 left) (drop 20 left)) in
            let time' =
              last_time-append before (take 20 left) (take-ne-nil 19 left (omega arith)) ∙ time in
            next_page query cursor left rest t many time (
              pages_from fuel query (some t) (before ++ take 20 left) (drop 20 left)
                (omega (arith, length-drop 20 left)) d split'
                (ap (keep (is_before (some t))) split'
                  ∙ keep-after t (before ++ take 20 left) (drop 20 left) (subst Descending split' d)
                      time'))
      ]

  -- If no two of the user's benchmarks were created at one time, the pages of the server, from the
  -- first on, make up the list of those that match the search, the latest first.
  list_benchmarks-Lists :
      (query : Str)
      → Descending rows
      → Lists (list_benchmarks lib rows) query none (shown_of (matching query))
  unfolding format_cursor
  list_benchmarks-Lists query d =
      pages_from (length (matching query)) query none [] (matching query) (omega arith)
        (keep-Descending (is_match lib query) rows d) refl (keep_before_none (matching query))

  -- If no two of the user's benchmarks were created at one time and no request fails, some number of
  -- clicks on "Load More" shows all of the user's benchmarks that match the search, the latest
  -- first, and leaves nothing to load.
  pub list_benchmarks-ShowsAll :
      (s : ResultsState)
      → Descending rows
      → (n : ℕ) × ShowsAll (list_benchmarks lib rows) (shown_of (matching s.search)) (
          load_pages
            (list_benchmarks lib rows)
            (replicate n true)
            (load_benchmarks (answering (list_benchmarks lib rows) true) none false s))
  list_benchmarks-ShowsAll s d =
      load_pages-ShowsAll (list_benchmarks lib rows) s (shown_of (matching s.search))
        (list_benchmarks-Lists s.search d)
