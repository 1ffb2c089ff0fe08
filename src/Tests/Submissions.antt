-- ===== src/Tests/Submissions.antt =====
-- The theorems on submissions at a page with one or two files.
use bit_bench.Prelude.{
  ◌≡◌, ◌≢◌, refl, ℕ, zero, suc, ◌<◌, none, some, [], ◌∷◌, true, false, Str, codes, arith, map,
}
use bit_bench.Prelude.Int.{pos}
use bit_bench.Options.Naturals.{naturals}
use bit_bench.Progress.{UploadPhase, FileUploadStatus}
use bit_bench.Upload.{
  UploadState, UploadedFile, Outcome, MultiMode, average, sequential, file_request, file_statuses,
  handle_submit, is_sequential,
}
use bit_bench.Prelude.Decimal.{decimal}
use bit_bench.Upload.Submit.{handle_submit-sequential, handle_submit-failed}
use bit_bench.Upload.Together.{handle_submit-together, handle_submit-together_failed}
use bit_bench.Tests.Instances.{gzip}
use bit_bench.Tests.Uploads.{thousandths}

abbrev file : Str → ℕ → UploadedFile
file name size = record { name = name; size = pos size }

abbrev page : MultiMode → UploadState ℕ
page mode = record {
  name = codes "bench";
  files = file (codes "a.csv") 3 ∷ file (codes "b.csv") 5 ∷ [];
  multi_mode = mode;
  instances = gzip 9 ∷ [];
  loading = false;
  error = [];
  phase = UploadPhase.idle;
  loaded = 0;
  total = 0;
  index = 0;
  sent = [];
  at_results = false;
}

abbrev accepted : Outcome
accepted = record {
  reports = record { loaded = 5; total = 10 } ∷ record { loaded = 10; total = 10 } ∷ [];
  failure = none;
}

abbrev refused : Outcome
refused = record {
  reports = record { loaded = 10; total = 10 } ∷ [];
  failure = some (codes "file too large");
}

abbrev accepting : ℕ → Outcome
accepting i = accepted

-- The second request fails.
abbrev refusing : ℕ → Outcome
refusing zero = accepted
refusing (suc i) = refused

named : codes "bench" ≢ []
named e = cc

handle_submit-sequential_example :
    ((handle_submit none accepting (page sequential)).sent
      ≡ map (file_request (page sequential)) (page sequential).files)
    × (file_statuses thousandths (handle_submit none accepting (page sequential))
        ≡ FileUploadStatus.done ∷ FileUploadStatus.done ∷ [])
    × ((handle_submit none accepting (page sequential)).at_results ≡ true)
    × ((handle_submit none accepting (page sequential)).loading ≡ false)
handle_submit-sequential_example =
    handle_submit-sequential accepting thousandths (page sequential)
      (named, refl, omega arith, refl) (λ j h. refl)

before_second : (j : ℕ) → j < 1 → (refusing j).failure ≡ none
before_second zero h = refl
before_second (suc j) h = absurd (omega arith)

handle_submit-failed_example :
    ((handle_submit none refusing (page sequential)).sent
      ≡ map (file_request (page sequential)) (page sequential).files)
    × (file_statuses thousandths (handle_submit none refusing (page sequential))
        ≡ FileUploadStatus.done ∷ FileUploadStatus.error ∷ [])
    × ((handle_submit none refusing (page sequential)).error ≡ codes "file too large")
    × ((handle_submit none refusing (page sequential)).at_results ≡ false)
    × ((handle_submit none refusing (page sequential)).loading ≡ false)
handle_submit-failed_example =
    handle_submit-failed refusing thousandths (page sequential) (file (codes "a.csv") 3 ∷ [])
      (file (codes "b.csv") 5) [] (codes "file too large") (named, refl, omega arith, refl) refl
      before_second refl

handle_submit-together_example :
    ((handle_submit none accepting (page average)).sent
      ≡ record {
        name = codes "bench (avg 2)";
        files = (page average).files;
        compressors = gzip 9 ∷ [];
      }
        ∷ [])
    × (file_statuses thousandths (handle_submit none accepting (page average))
        ≡ FileUploadStatus.done ∷ FileUploadStatus.done ∷ [])
    × ((handle_submit none accepting (page average)).at_results ≡ true)
    × ((handle_submit none accepting (page average)).loading ≡ false)
unfolding decimal
handle_submit-together_example =
    handle_submit-together accepting thousandths (page average)
      (named, omega arith, unfold is_sequential in refl, refl) refl

handle_submit-together_failed_example :
    ((handle_submit none (λ i. refused) (page average)).sent
      ≡ record {
        name = codes "bench (avg 2)";
        files = (page average).files;
        compressors = gzip 9 ∷ [];
      }
        ∷ [])
    × (file_statuses thousandths (handle_submit none (λ i. refused) (page average))
        ≡ FileUploadStatus.error ∷ FileUploadStatus.error ∷ [])
    × ((handle_submit none (λ i. refused) (page average)).error ≡ codes "file too large")
    × ((handle_submit none (λ i. refused) (page average)).at_results ≡ false)
    × ((handle_submit none (λ i. refused) (page average)).loading ≡ false)
unfolding decimal
handle_submit-together_failed_example =
    handle_submit-together_failed (λ i. refused) thousandths (page average) (codes "file too large")
      (named, omega arith, unfold is_sequential in refl, refl) refl
