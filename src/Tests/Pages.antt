-- ===== src/Tests/Pages.antt =====
-- The theorem on the server's pages of benchmarks at a concrete input.
use bit_bench.Prelude.{
  ◌≡◌, refl, ◌≢◌, ℕ, Option, none, some, List, [], ◌∷◌, true, false, Bool, Str, codes, All, arith,
  ◌<◌, length, replicate,
}
use bit_bench.Backend.Listing.{Row, Library, list_benchmarks}
use bit_bench.Backend.Rows.{Descending}
use bit_bench.Backend.Pages.{shown_of, matching, list_benchmarks-ShowsAll}
use bit_bench.Listing.{ResultsState, load_benchmarks}
use bit_bench.Listing.Paging.{ShowsAll, load_pages, answering}
use bit_bench.Prelude.{ap, suc, zero, ◌-◌}
use bit_bench.Tests.Servers.{integers}

abbrev unary : ℕ → Str
unary t = replicate (suc t) 49

unary-ne-nil : (t : ℕ) → unary t ≢ []
unary-ne-nil t e = cc

abbrev count_units : Str → Option ℕ
count_units s = some (length s - 1)

count_units-unary : (t : ℕ) → count_units (unary t) ≡ some t
count_units-unary t = ap some (omega (arith, length-replicate t))
  where
    length-replicate : (n : ℕ) → length (replicate {A = ℕ} n 49) ≡ n
    length-replicate zero = refl
    length-replicate (suc n) = ap suc (length-replicate n)

abbrev twenty : Str → ℕ
twenty s = 20

abbrev any_name : Str → Row → Bool
any_name pattern row = true

small_library : Library
small_library = record {
  format = unary;
  parse = count_units;
  atoi = twenty;
  ilike = any_name;
  parse-format = count_units-unary;
  format-ne-nil = unary-ne-nil;
  atoi_20 = refl;
}

abbrev row_at : ℕ → Row
row_at t = record {
  shown = record { id = unary t; name = codes "run"; status = codes "ready"; progress = none };
  created_at = t;
}

-- Rows created at `n` and before, the latest first.
abbrev rows_to : ℕ → List Row
rows_to zero = row_at 0 ∷ []
rows_to (suc n) = row_at (suc n) ∷ rows_to n

rows_below : (n m : ℕ) → n < m → All (λ r. r.created_at < m) (rows_to n)
rows_below zero m h = (h, tt)
rows_below (suc n) m h = (h, rows_below n m (omega arith))

rows_to-Descending : (n : ℕ) → Descending (rows_to n)
rows_to-Descending zero = (tt, tt)
rows_to-Descending (suc n) = (rows_below n (suc n) (omega arith), rows_to-Descending n)

abbrev empty_list : ResultsState
empty_list = record {
  benchmarks = [];
  search = [];
  next_cursor = none;
  loading = false;
  loading_more = false;
  select_mode = false;
  selected_ids = [];
  max_compare = 5;
}

list_benchmarks-ShowsAll_example :
    (n : ℕ) × ShowsAll
      (list_benchmarks small_library (rows_to 30))
      (shown_of small_library (rows_to 30) (matching small_library (rows_to 30) []))
      (load_pages (list_benchmarks small_library (rows_to 30)) (replicate n true) (
        load_benchmarks
          (answering (list_benchmarks small_library (rows_to 30)) true)
          none
          false
          empty_list))
list_benchmarks-ShowsAll_example =
    list_benchmarks-ShowsAll small_library (rows_to 30) empty_list (rows_to-Descending 30)
