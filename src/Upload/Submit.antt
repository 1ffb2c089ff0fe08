-- ===== src/Upload/Submit.antt =====
-- What a sequential submission sends and shows, if all files are accepted and if one fails.
use bit_bench.Prelude.{
  ℕ, zero, suc, ◌+◌, ◌-◌, ◌<◌, ◌≡◌, ◌≢◌, refl, inl, inr, none, some, List, [], ◌∷◌, ◌++◌, true,
  false, not, ◌||◌, ◌∙◌, ap, map, length, ◌==◌, ltb, arith, Str, str_eq, str_eq_iff, length-append,
  replicate, Bool-cases, if◌then◌else◌,
}
use bit_bench.Progress.{
  UploadPhase, FileUploadStatus, Doubles, active_status, sequential_file_statuses,
}
use bit_bench.Progress.Laws.{sequential_file_statuses_lem}
use bit_bench.Upload.{
  UploadState, UploadedFile, Outcome, sequential, submit_each, file_request, file_statuses,
  is_blocked, handle_submit, submit_files, submit_together, start_submit, stop_loading,
  catch_failure, is_sequential,
}
use bit_bench.Upload.Statuses.{at_request}
use bit_bench.Upload.Sequential.{submit_each-all, submit_each-failed}

-- The page has a name and at least two files, shows sequential mode, and sends nothing yet.
abbrev pub IsReady : {Num : Type 0} → UploadState Num → Type 0
IsReady s = (s.name ≢ []) × (s.multi_mode ≡ sequential) × (1 < length s.files) × (s.loading ≡ false)

replicate_snoc : {A : Type 0} (n : ℕ) (a : A) → replicate n a ++ a ∷ [] ≡ replicate (suc n) a
replicate_snoc zero a = refl
replicate_snoc (suc n) a = ap (a ∷◌) (replicate_snoc n a)

done_statuses :
    (n : ℕ)
    → 0 < n
    → sequential_file_statuses n (n - 1) UploadPhase.done ≡ replicate n FileUploadStatus.done
unfolding active_status
done_statuses zero h = absurd (omega arith)
done_statuses (suc n) h =
    let size : suc n ≡ n + 1 = omega arith in
    let last : suc n - 1 ≡ n = omega arith in
    ap (λ k. sequential_file_statuses k (suc n - 1) UploadPhase.done) size
    ∙ ap (λ k. sequential_file_statuses (n + 1) k UploadPhase.done) last
    ∙ sequential_file_statuses_lem n 0 UploadPhase.done
    ∙ replicate_snoc n FileUploadStatus.done

module _ {Num : Type 0} (server : ℕ → Outcome) where
  not_blocked : (s : UploadState Num) → IsReady s → is_blocked none s ≡ false
  unfolding is_blocked
  not_blocked s (named, mode, many, idle) = elim (Bool-cases (str_eq s.name [])) [
    | inl e ↦ absurd (named ((str_eq_iff s.name []).0 e))
    | inr e ↦ rw e (ground (arith, many, idle))
  ]

  in_loop :
      (s : UploadState Num)
      → IsReady s
      → (length s.files == 1 || not (is_sequential s.multi_mode)) ≡ false
  unfolding is_sequential
  in_loop s (named, mode, many, idle) = rw mode (ground (arith, many))

  submitted :
      (s : UploadState Num)
      → IsReady s
      → handle_submit none server s
        ≡ stop_loading
            (catch_failure (submit_each server (length s.files) s.files 0 (start_submit s)))
  unfolding handle_submit submit_files start_submit
  submitted s h =
      ap (λ b. if b then s else stop_loading (catch_failure (submit_files server (start_submit s))))
        (not_blocked s h)
      ∙ ap
          (λ b. stop_loading (
            catch_failure (
              if b
              then submit_together (server 0) (start_submit s)
              else submit_each server (length s.files) s.files 0 (start_submit s))))
          (in_loop s h)

  shown :
      {D : Type 0} (d : Doubles D) (s : UploadState Num)
      → s.multi_mode ≡ sequential
      → 1 < length s.files
      → file_statuses d s ≡ sequential_file_statuses (length s.files) s.index s.phase
  unfolding file_statuses is_sequential
  shown d s mode many =
      let some_file : (length s.files == 0) ≡ false = ground arith in
      let more : ltb 1 (length s.files) ≡ true = ground arith in rw (some_file, mode, more) refl

  all_answered :
      (files : List UploadedFile) (s : UploadState Num)
      → 0 < length files
      → ((j : ℕ) → j < length files → (server j).failure ≡ none)
      → (loaded : ℕ) × (total : ℕ) × (submit_each server (length files) files 0 s ≡ (
        at_request s
            (length files - 1)
            UploadPhase.done
            loaded
            total
            (s.sent ++ map (file_request s) files)
            true,
        none,
      ))
  all_answered [] s some_file answered = absurd (omega arith)
  all_answered (f ∷ rest) s some_file answered =
      submit_each-all server (length (f ∷ rest)) f rest 0 s answered (omega arith)

  -- If no request fails, a ready page in sequential mode with a valid configuration sends one request for each file, named
  -- after the benchmark and the file, in the order of the files; then it shows every file as done,
  -- leaves for the results, and is not loading.
  pub handle_submit-sequential :
      {D : Type 0} (d : Doubles D) (s : UploadState Num)
      → IsReady s
      → ((j : ℕ) → j < length s.files → (server j).failure ≡ none)
      → ((handle_submit none server s).sent ≡ s.sent ++ map (file_request s) s.files)
        × (file_statuses d (handle_submit none server s)
            ≡ replicate (length s.files) FileUploadStatus.done)
        × ((handle_submit none server s).at_results ≡ true)
        × ((handle_submit none server s).loading ≡ false)
  unfolding start_submit stop_loading catch_failure file_request
  handle_submit-sequential d s (named, mode, many, idle) answered =
      let (loaded, total, e) = all_answered s.files (start_submit s) (omega arith) answered in
      let ended =
        submitted s (named, mode, many, idle) ∙ ap (λ r. stop_loading (catch_failure r)) e in
      (
        ap (λ t. t.sent) ended,
        ap (file_statuses d) ended
            ∙ shown d _ mode many
            ∙ done_statuses (length s.files) (omega arith),
        ap (λ t. t.at_results) ended,
        ap (λ t. t.loading) ended,
      )

  -- If the request of file `f` is the first to fail, a ready page in sequential mode
  -- with a valid configuration has sent the
  -- requests of the files up to `f` and no other; it shows the files before `f` as done, `f` as
  -- failed and the files behind it as ready, shows the failure's message, stays on the page, and is
  -- not loading.
  pub handle_submit-failed :
      {D : Type 0} (d : Doubles D) (s : UploadState Num) (before : List UploadedFile)
      (f : UploadedFile) (after : List UploadedFile) (message : Str)
      → IsReady s
      → s.files ≡ before ++ f ∷ after
      → ((j : ℕ) → j < length before → (server j).failure ≡ none)
      → (server (length before)).failure ≡ some message
      → ((handle_submit none server s).sent ≡ s.sent ++ map (file_request s) (before ++ f ∷ []))
        × (file_statuses d (handle_submit none server s)
            ≡ replicate (length before) FileUploadStatus.done
              ++ FileUploadStatus.error ∷ replicate (length after) FileUploadStatus.ready)
        × ((handle_submit none server s).error ≡ message)
        × ((handle_submit none server s).at_results ≡ s.at_results)
        × ((handle_submit none server s).loading ≡ false)
  unfolding start_submit stop_loading catch_failure file_request active_status
  handle_submit-failed d s before f after message (named, mode, many, idle) all answered failed =
      let size : length s.files ≡ length before + suc (length after) =
        ap length all ∙ length-append before (f ∷ after) in
      let (phase, loaded, total, e) =
        submit_each-failed server (length s.files) before f after 0 (length before) (start_submit s)
          message (omega arith) answered failed (omega arith) in
      let ended =
        submitted s (named, mode, many, idle)
        ∙ ap
            (λ fs.
              stop_loading
                (catch_failure (submit_each server (length s.files) fs 0 (start_submit s))))
            all
        ∙ ap (λ r. stop_loading (catch_failure r)) e in
      (
        ap (λ t. t.sent) ended,
        ap (file_statuses d) ended
            ∙ shown d _ mode many
            ∙ ap (λ n. sequential_file_statuses n (length before) UploadPhase.error) size
            ∙ sequential_file_statuses_lem (length before) (length after) UploadPhase.error,
        ap (λ t. t.error) ended,
        ap (λ t. t.at_results) ended,
        ap (λ t. t.loading) ended,
      )
