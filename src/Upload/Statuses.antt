-- ===== src/Upload/Statuses.antt =====
-- What a request leaves of the page's state (pages/UploadPage.tsx).
use bit_bench.Prelude.{
  ℕ, ◌≡◌, refl, inl, inr, List, [], ◌∷◌, ◌++◌, Bool, ◌&&◌, ltb, leb, Bool-cases, ◌∙◌,
}
use bit_bench.Progress.{UploadPhase}
use bit_bench.Upload.{
  UploadState, UploadedFile, UploadProgress, Outcome, Request, report_progress, report_all, send,
  start_file, file_request,
}

module _ {Num : Type 0} where
  -- The state with other values where requests change it.
  abbrev pub at_request :
      UploadState Num → ℕ → UploadPhase → ℕ → ℕ → List (Request Num) → Bool → UploadState Num
  at_request s index phase loaded total sent at_results = record s {
    index = index;
    phase = phase;
    loaded = loaded;
    total = total;
    sent = sent;
    at_results = at_results;
  }

  -- Progress events change the phase and the two byte counts only.
  pub report_all-kept :
      (reports : List UploadProgress) (s : UploadState Num)
      → (phase : UploadPhase) × (loaded : ℕ) × (total : ℕ) × (report_all reports s
          ≡ at_request s s.index phase loaded total s.sent s.at_results)
  unfolding report_all report_progress
  report_all-kept [] s = (s.phase, s.loaded, s.total, refl)
  report_all-kept (p ∷ reports) s =
      let (phase, loaded, total, e) = report_all-kept reports (report_progress p s) in
      elim (Bool-cases (ltb 0 p.total && leb p.total p.loaded)) [
        | inl full ↦ (phase, loaded, total, e ∙ rw full refl)
        | inr part ↦ (phase, loaded, total, e ∙ rw part refl)
      ]

  -- The request of one file changes what `at_request` sets only.
  pub send-start_file :
      (f : UploadedFile) (outcome : Outcome) (i : ℕ) (s : UploadState Num)
      → (phase : UploadPhase) × (loaded : ℕ) × (total : ℕ) × (send
            (file_request s f)
            outcome
            (start_file i s)
          ≡ at_request s i phase loaded total (s.sent ++ file_request s f ∷ []) s.at_results)
  unfolding send start_file
  send-start_file f outcome i s =
      report_all-kept outcome.reports
        (record (start_file i s) { sent = s.sent ++ file_request s f ∷ [] })
