-- ===== src/Upload/Together.antt =====
-- A submission as one benchmark: a single file, or files that are averaged.
use bit_bench.Prelude.{
  ℕ, ◌<◌, ◌≡◌, ◌≢◌, refl, inl, inr, Option, none, some, List, [], ◌∷◌, ◌++◌, true, false, not, ◌||◌,
  ◌&&◌, ◌∙◌, ap, map, length, ◌==◌, ltb, arith, Str, str_eq, str_eq_iff, replicate, Bool-cases,
  codes, if◌then◌else◌,
}
use bit_bench.Prelude.Decimal.{decimal}
use bit_bench.Progress.{UploadPhase, FileUploadStatus, Doubles, batch_file_statuses}
use bit_bench.Upload.{
  UploadState, UploadedFile, Outcome, is_blocked, handle_submit, submit_files, submit_together,
  submit_each, start_submit, stop_loading, catch_failure, is_sequential, after_single, send,
  together_request, file_statuses, file_sizes,
}
use bit_bench.Upload.Statuses.{at_request, report_all-kept}

-- The page has a name and files that make up one benchmark, and sends nothing yet.
abbrev pub IsSingle : {Num : Type 0} → UploadState Num → Type 0
IsSingle s =
    (s.name ≢ [])
    × (0 < length s.files)
    × ((is_sequential s.multi_mode && ltb 1 (length s.files)) ≡ false)
    × (s.loading ≡ false)

each_file :
    (status : FileUploadStatus) (files : List UploadedFile)
    → map (λ _. status) (file_sizes files) ≡ replicate (length files) status
unfolding file_sizes
each_file status [] = refl
each_file status (f ∷ files) = ap (status ∷◌) (each_file status files)

module _ {Num : Type 0} (server : ℕ → Outcome) where
  not_blocked : (s : UploadState Num) → IsSingle s → is_blocked none s ≡ false
  unfolding is_blocked
  not_blocked s (named, some_file, single, idle) = elim (Bool-cases (str_eq s.name [])) [
    | inl e ↦ absurd (named ((str_eq_iff s.name []).0 e))
    | inr e ↦ rw e (ground (arith, some_file, idle))
  ]

  one_benchmark :
      (s : UploadState Num)
      → IsSingle s
      → (length s.files == 1 || not (is_sequential s.multi_mode)) ≡ true
  one_benchmark s (named, some_file, single, idle) = ground (arith, some_file, single)

  submitted :
      (s : UploadState Num)
      → IsSingle s
      → handle_submit none server s
        ≡ stop_loading (catch_failure (submit_together (server 0) (start_submit s)))
  unfolding handle_submit submit_files start_submit
  submitted s h =
      ap (λ b. if b then s else stop_loading (catch_failure (submit_files server (start_submit s))))
        (not_blocked s h)
      ∙ ap
          (λ b. stop_loading (
            catch_failure (
              if b
              then submit_together (server 0) (start_submit s)
              else submit_each server (length s.files) s.files 0 (start_submit s))))
          (one_benchmark s h)

  -- The name of the one benchmark: with several files, that of an average.
  abbrev pub together_name : UploadState Num → Str
  together_name s =
      if ltb 1 (length s.files)
      then s.name ++ codes " (avg " ++ decimal (length s.files) ++ codes ")"
      else s.name

  -- The one request of a page whose files make up one benchmark.
  together_request-all :
      (s : UploadState Num)
      → IsSingle s
      → together_request s
        ≡ record { name = together_name s; files = s.files; compressors = s.instances }
  unfolding together_request
  together_request-all s (named, some_file, single, idle) =
      elim (Bool-cases (is_sequential s.multi_mode)) [
        | inl e ↦ let few : ltb 1 (length s.files) ≡ false = rw e at single in rw (e, few) refl
        | inr e ↦ rw e refl
      ]

  -- The request changes what `at_request` sets only.
  sent_together :
      (outcome : Outcome) (s : UploadState Num)
      → (phase : UploadPhase) × (loaded : ℕ) × (total : ℕ) × (send
            (together_request s)
            outcome
            (record s { phase = UploadPhase.uploading })
          ≡ at_request s s.index phase loaded total
              (s.sent ++ together_request s ∷ [])
              s.at_results)
  unfolding send
  sent_together outcome s =
      report_all-kept outcome.reports
        (record s { phase = UploadPhase.uploading; sent = s.sent ++ together_request s ∷ [] })

  together_eq :
      (outcome : Outcome) (s answered : UploadState Num) (failure : Option Str)
      → send (together_request s) outcome (record s { phase = UploadPhase.uploading }) ≡ answered
      → outcome.failure ≡ failure
      → submit_together outcome s ≡ after_single failure answered
  unfolding submit_together
  together_eq outcome s answered failure e failed = rw (e, failed) refl

  shown :
      {D : Type 0} (d : Doubles D) (s : UploadState Num)
      → 0 < length s.files
      → (is_sequential s.multi_mode && ltb 1 (length s.files)) ≡ false
      → file_statuses d s ≡ batch_file_statuses d (file_sizes s.files) s.phase s.loaded s.total
  unfolding file_statuses
  shown d s some_file single =
      let none_missing : (length s.files == 0) ≡ false = ground arith in
      rw (none_missing, single) refl

  -- If its request does not fail, a page with a valid configuration whose files make up one
  -- benchmark sends one request with the page's name, all its files and all its instances, where the
  -- name of several files says that it is an average; then it shows every file as done, leaves for
  -- the results, and is not loading.
  pub handle_submit-together :
      {D : Type 0} (d : Doubles D) (s : UploadState Num)
      → IsSingle s
      → (server 0).failure ≡ none
      → ((handle_submit none server s).sent
          ≡ s.sent
            ++ record { name = together_name s; files = s.files; compressors = s.instances } ∷ [])
        × (file_statuses d (handle_submit none server s)
            ≡ replicate (length s.files) FileUploadStatus.done)
        × ((handle_submit none server s).at_results ≡ true)
        × ((handle_submit none server s).loading ≡ false)
  unfolding start_submit stop_loading catch_failure together_request after_single
      batch_file_statuses
  handle_submit-together d s (named, some_file, single, idle) answered =
      let (phase, loaded, total, e) = sent_together (server 0) (start_submit s) in
      let ended =
        submitted s (named, some_file, single, idle)
        ∙ ap (λ r. stop_loading (catch_failure r))
            (together_eq (server 0) (start_submit s) _ none e answered) in
      (
        ap (λ t. t.sent) ended
            ∙ ap (λ r. s.sent ++ r ∷ []) (together_request-all s (named, some_file, single, idle)),
        ap (file_statuses d) ended
            ∙ shown d _ some_file single
            ∙ each_file FileUploadStatus.done s.files,
        ap (λ t. t.at_results) ended,
        ap (λ t. t.loading) ended,
      )

  -- If its request fails, a page with a valid configuration whose files make up one benchmark has
  -- sent this one request, with all its files and instances; it shows every file as failed and the
  -- failure's message, stays on the page, and is not loading.
  pub handle_submit-together_failed :
      {D : Type 0} (d : Doubles D) (s : UploadState Num) (message : Str)
      → IsSingle s
      → (server 0).failure ≡ some message
      → ((handle_submit none server s).sent
          ≡ s.sent
            ++ record { name = together_name s; files = s.files; compressors = s.instances } ∷ [])
        × (file_statuses d (handle_submit none server s)
            ≡ replicate (length s.files) FileUploadStatus.error)
        × ((handle_submit none server s).error ≡ message)
        × ((handle_submit none server s).at_results ≡ s.at_results)
        × ((handle_submit none server s).loading ≡ false)
  unfolding start_submit stop_loading catch_failure together_request after_single
      batch_file_statuses
  handle_submit-together_failed d s message (named, some_file, single, idle) failed =
      let (phase, loaded, total, e) = sent_together (server 0) (start_submit s) in
      let ended =
        submitted s (named, some_file, single, idle)
        ∙ ap (λ r. stop_loading (catch_failure r))
            (together_eq (server 0) (start_submit s) _ (some message) e failed) in
      (
        ap (λ t. t.sent) ended
            ∙ ap (λ r. s.sent ++ r ∷ []) (together_request-all s (named, some_file, single, idle)),
        ap (file_statuses d) ended
            ∙ shown d _ some_file single
            ∙ each_file FileUploadStatus.error s.files,
        ap (λ t. t.error) ended,
        ap (λ t. t.at_results) ended,
        ap (λ t. t.loading) ended,
      )
