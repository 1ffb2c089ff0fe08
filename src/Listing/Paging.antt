-- ===== src/Listing/Paging.antt =====
-- Loading the list page by page against the whole listing that the server's pages make up.
use bit_bench.Prelude.{
  ℕ, suc, ◌≡◌, refl, sym, subst, ◌∙◌, ◌⊎◌, inl, inr, Option, none, some, List, [], ◌∷◌, ◌++◌, Bool,
  true, false, Str, replicate, append_assoc,
}
use bit_bench.Api.{Settled, resolved, rejected}
use bit_bench.Permissions.{truthy}
use bit_bench.Listing.{
  Benchmark, Page, ResultsState, or_nothing, list_query, load_benchmarks, load_more, load_more_from,
  begin_load, show_page, finish_load,
}

module _ (serve : List (Str × Str) → Page) where
  -- The page at a cursor.
  abbrev pub page_at : Str → Option Str → Page
  page_at search cursor = serve (list_query search cursor)

  -- The pages from a cursor on, up to one without a further cursor, make up the list.
  pub data Lists (search : Str) : Option Str → List Benchmark → Type 0 where
    last :
        (cursor : Option Str)
        → truthy ((page_at search cursor).next_cursor) ≡ false
        → Lists search cursor (or_nothing ((page_at search cursor).benchmarks))
    more :
        (cursor : Option Str) (rest : List Benchmark)
        → truthy ((page_at search cursor).next_cursor) ≡ true
        → Lists search ((page_at search cursor).next_cursor) rest
        → Lists search cursor (or_nothing ((page_at search cursor).benchmarks) ++ rest)

  -- The server's answer, or a failure.
  unfoldable pub answering : Bool → List (Str × Str) → Settled Page
  answering true query = resolved (some (serve query))
  answering false query = rejected []

  -- A sequence of clicks on "Load More", the first one first; the request of a click marked with
  -- `false` fails.
  unfoldable pub load_pages : List Bool → ResultsState → ResultsState
  unfolding answering
  load_pages [] s = s
  load_pages (works ∷ clicks) s = load_pages clicks (load_more (answering works) s)

  -- What is shown is the part of the listing that lies before the cursor.
  abbrev pub ShowsUpTo : Str → Option Str → List Benchmark → List Benchmark → Type 0
  ShowsUpTo search cursor shown all =
      ((truthy cursor ≡ false) × (shown ≡ all))
      ⊎ ((truthy cursor ≡ true)
          × ((rest : List Benchmark) × Lists search cursor rest × (shown ++ rest ≡ all)))

  abbrev pub Shows : List Benchmark → ResultsState → Type 0
  Shows all s = ShowsUpTo s.search s.next_cursor s.benchmarks all

  page_at-ShowsUpTo :
      (search : Str) (cursor : Option Str) (shown rest all : List Benchmark)
      → Lists search cursor rest
      → shown ++ rest ≡ all
      → ShowsUpTo search
          ((page_at search cursor).next_cursor)
          (shown ++ or_nothing ((page_at search cursor).benchmarks))
          all
  page_at-ShowsUpTo search _ shown _ all (last cursor none_left) e = inl (none_left, e)
  page_at-ShowsUpTo search _ shown _ all (more cursor rest some_left l) e =
      let page = or_nothing ((page_at search cursor).benchmarks) in
      inr (some_left, (rest, l, append_assoc shown page rest ∙ e))

  load_more-Shows :
      (works : Bool) (all : List Benchmark) (s : ResultsState)
      → Shows all s
      → Shows all (load_more (answering works) s)
  unfolding load_more load_more_from load_benchmarks begin_load show_page finish_load answering
  load_more-Shows works all s (inl (none_left, e)) = rw none_left (inl (none_left, e))
  load_more-Shows false all s (inr (some_left, (rest, l, e))) =
      rw some_left (inr (some_left, (rest, l, e)))
  load_more-Shows true all s (inr (some_left, (rest, l, e))) =
      rw some_left (page_at-ShowsUpTo s.search s.next_cursor s.benchmarks rest all l e)

  load_pages-Shows :
      (clicks : List Bool) (all : List Benchmark) (s : ResultsState)
      → Shows all s
      → Shows all (load_pages clicks s)
  unfolding load_pages
  load_pages-Shows [] all s h = h
  load_pages-Shows (works ∷ clicks) all s h =
      load_pages-Shows clicks all (load_more (answering works) s) (load_more-Shows works all s h)

  -- However often "Load More" is clicked after the first page, and whichever of these requests fail:
  -- the list shows the server's listing up to the cursor, and all of it where no cursor is left.
  pub load_pages_lem :
      (clicks : List Bool) (all : List Benchmark) (s : ResultsState)
      → Lists s.search none all
      → Shows all (load_pages clicks (load_benchmarks (answering true) none false s))
  unfolding load_benchmarks begin_load show_page finish_load answering
  load_pages_lem clicks all s l =
      load_pages-Shows clicks all (load_benchmarks (answering true) none false s)
        (page_at-ShowsUpTo s.search none [] all all l refl)

  -- Nothing is left to load, and the whole listing is shown.
  abbrev pub ShowsAll : List Benchmark → ResultsState → Type 0
  ShowsAll all s =
      (truthy s.next_cursor ≡ false)
      × (s.benchmarks ≡ all)
      × (s.loading ≡ false)
      × (s.loading_more ≡ false)

  -- The page behind an answered request.
  abbrev at_cursor : ResultsState → Option Str → List Benchmark → ResultsState
  at_cursor s cursor shown = record s {
    benchmarks = shown;
    next_cursor = cursor;
    loading = false;
    loading_more = false;
  }

  load_more-at_cursor :
      (s : ResultsState) (cursor : Option Str) (shown : List Benchmark)
      → truthy cursor ≡ true
      → load_more (answering true) (at_cursor s cursor shown)
        ≡ at_cursor s
            ((page_at s.search cursor).next_cursor)
            (shown ++ or_nothing ((page_at s.search cursor).benchmarks))
  unfolding load_more load_more_from load_benchmarks begin_load show_page finish_load answering
  load_more-at_cursor s cursor shown some_left = rw some_left refl

  load_pages-rest :
      (s : ResultsState) (cursor : Option Str) (shown rest : List Benchmark)
      → Lists s.search cursor rest
      → truthy cursor ≡ true
      → (n : ℕ) × ShowsAll
          (shown ++ rest)
          (load_pages (replicate n true) (at_cursor s cursor shown))
  unfolding load_pages
  load_pages-rest s _ shown _ (last cursor none_left) t = (
    1,
    subst (ShowsAll (shown ++ or_nothing ((page_at s.search cursor).benchmarks)))
        (sym (load_more-at_cursor s cursor shown t)) (none_left, refl, refl, refl),
  )
  load_pages-rest s _ shown _ (more cursor rest some_left l) t =
      let page = or_nothing ((page_at s.search cursor).benchmarks) in
      let next = (page_at s.search cursor).next_cursor in
      let (n, h) = load_pages-rest s next (shown ++ page) rest l some_left in
      (
        suc n,
        subst (λ z. ShowsAll (shown ++ (page ++ rest)) (load_pages (replicate n true) z))
            (sym (load_more-at_cursor s cursor shown t))
            (subst
              (λ z. ShowsAll z (load_pages (replicate n true) (at_cursor s next (shown ++ page))))
              (append_assoc shown page rest) h),
      )

  -- Some number of clicks on "Load More" shows the whole listing, if no request fails.
  pub load_pages-ShowsAll :
      (s : ResultsState) (all : List Benchmark)
      → Lists s.search none all
      → (n : ℕ) × ShowsAll all
          (load_pages (replicate n true) (load_benchmarks (answering true) none false s))
  unfolding load_benchmarks begin_load show_page finish_load answering load_pages
  load_pages-ShowsAll s _ (last _ none_left) = (0, (none_left, refl, refl, refl))
  load_pages-ShowsAll s _ (more _ rest some_left l) =
      load_pages-rest s ((page_at s.search none).next_cursor)
        (or_nothing ((page_at s.search none).benchmarks)) rest l some_left
