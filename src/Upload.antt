-- ===== src/Upload.antt =====
-- The upload of files as benchmarks (`handleSubmit` and what surrounds it in
-- pages/UploadPage.tsx). The server and the network are a parameter: what each request meets.
pub mod Submit
pub mod Statuses
pub mod Sequential
pub mod Together
pub mod Summary
use bit_bench.Prelude.{
  ℕ, zero, suc, ◌+◌, ◌-◌, Option, none, some, List, [], ◌∷◌, ◌++◌, Bool, true, false, not, ◌&&◌,
  ◌||◌, Str, codes, str_eq, length, leb, ltb, ◌==◌, if◌then◌else◌, map, has,
}
use bit_bench.Prelude.Decimal.{decimal}
use bit_bench.Prelude.Int.{ℤ}
use bit_bench.Progress.{
  UploadPhase, FileUploadStatus, Doubles, batch_file_statuses, sequential_file_statuses,
}
use bit_bench.Instances.{InstanceDraft, ValidationError}
use bit_bench.Editor.{without_index}

pub record UploadedFile : Type 0 where
  pub name : Str
  pub size : ℤ

pub data MultiMode : Type 0 where
  average sequential : MultiMode

-- `UploadProgress`: the bytes sent so far, and the size of the request or 0.
pub record UploadProgress : Type 0 where
  pub loaded : ℕ
  pub total : ℕ

-- What one request meets: its progress events, and the message of its failure if it fails.
pub record Outcome : Type 0 where
  pub reports : List UploadProgress
  pub failure : Option Str

-- The form of `POST /benchmarks`.
pub record Request (Num : Type 0) : Type 0 where
  pub name : Str
  pub files : List UploadedFile
  pub compressors : List (InstanceDraft Num)

-- The state of the page that a submission reads and sets. `sent` lists the requests, the latest
-- last; `at_results` tells if the page has been left for the results.
pub record UploadState (Num : Type 0) : Type 0 where
  pub name : Str
  pub files : List UploadedFile
  pub multi_mode : MultiMode
  pub instances : List (InstanceDraft Num)
  pub loading : Bool
  pub error : Str
  pub phase : UploadPhase
  pub loaded : ℕ
  pub total : ℕ
  pub index : ℕ
  pub sent : List (Request Num)
  pub at_results : Bool

unfoldable pub has_no_dot : Str → Bool
has_no_dot [] = true
has_no_dot (c ∷ s) = not (c == b'.') && has_no_dot s

-- `f.name.replace(/\.[^.]+$/, '')`: drops the last dot and what follows it, unless nothing does.
unfoldable pub stem : Str → Str
unfolding has_no_dot
stem [] = []
stem (c ∷ s) =
    let rest = stem s in if c == b'.' && ltb 0 (length s) && has_no_dot s then [] else c ∷ rest

unfoldable pub is_sequential : MultiMode → Bool
is_sequential average = false
is_sequential sequential = true

unfoldable pub file_sizes : List UploadedFile → List ℤ
file_sizes [] = []
file_sizes (f ∷ fs) = f.size ∷ file_sizes fs

module _ {Num : Type 0} where
  -- The four resets that each change of the file list makes.
  unfoldable pub reset_progress : UploadState Num → UploadState Num
  reset_progress s = record s { phase = UploadPhase.idle; loaded = 0; total = 0; index = 0 }

  -- `handleFileChange`
  unfoldable pub handle_file_change : List UploadedFile → UploadState Num → UploadState Num
  unfolding reset_progress
  handle_file_change [] s = reset_progress (record s { files = [] })
  handle_file_change (f ∷ fs) s = reset_progress (record s {
    files = f ∷ fs;
    name = if str_eq s.name [] then stem f.name else s.name;
    error = [];
  })

  unfoldable pub remove_file : ℕ → UploadState Num → UploadState Num
  unfolding reset_progress
  remove_file i s = reset_progress (record s { files = without_index i s.files })

  -- `fileStatuses`
  unfoldable pub file_statuses : {D : Type 0} → Doubles D → UploadState Num → List FileUploadStatus
  unfolding file_sizes
  file_statuses d s =
      if length s.files == 0
      then []
      else (if is_sequential s.multi_mode && ltb 1 (length s.files)
          then sequential_file_statuses (length s.files) s.index s.phase
          else batch_file_statuses d (file_sizes s.files) s.phase s.loaded s.total)

  unfoldable pub report_progress : UploadProgress → UploadState Num → UploadState Num
  report_progress p s =
      let reported = record s { loaded = p.loaded; total = p.total } in
      if ltb 0 p.total && leb p.total p.loaded
      then record reported { phase = UploadPhase.processing }
      else reported

  unfoldable pub report_all : List UploadProgress → UploadState Num → UploadState Num
  unfolding report_progress
  report_all [] s = s
  report_all (p ∷ ps) s = report_all ps (report_progress p s)

  -- A request until it is answered.
  unfoldable pub send : Request Num → Outcome → UploadState Num → UploadState Num
  unfolding report_all
  send request outcome s = report_all outcome.reports (record s { sent = s.sent ++ request ∷ [] })

  unfoldable pub finish : UploadState Num → UploadState Num
  finish s = record s { phase = UploadPhase.done }

  -- The `catch` block: the failure, if there was one.
  unfoldable pub catch_failure : UploadState Num × Option Str → UploadState Num
  catch_failure (s, none) = s
  catch_failure (s, some message) = record s { phase = UploadPhase.error; error = message }

  -- One benchmark from all files.
  unfoldable pub together_request : UploadState Num → Request Num
  together_request s = record {
    name =
        if not (is_sequential s.multi_mode) && ltb 1 (length s.files)
        then s.name ++ codes " (avg " ++ decimal (length s.files) ++ codes ")"
        else s.name;
    files = s.files;
    compressors = s.instances;
  }

  -- `await`: a failure is thrown, else the page leaves for the results.
  unfoldable pub after_single : Option Str → UploadState Num → UploadState Num × Option Str
  unfolding finish
  after_single none answered = (record (finish answered) { at_results = true }, none)
  after_single (some message) answered = (answered, some message)

  unfoldable pub submit_together : Outcome → UploadState Num → UploadState Num × Option Str
  submit_together outcome s =
      after_single outcome.failure
        (send (together_request s) outcome (record s { phase = UploadPhase.uploading }))

  -- The benchmark of one file in sequential mode.
  unfoldable pub file_request : UploadState Num → UploadedFile → Request Num
  file_request s f = record {
    name = s.name ++ codes " (" ++ stem f.name ++ codes ")";
    files = f ∷ [];
    compressors = s.instances;
  }

  unfoldable pub start_file : ℕ → UploadState Num → UploadState Num
  start_file i s = record s { index = i; loaded = 0; total = 0; phase = UploadPhase.uploading }

  -- `setUploadPhase('done')`, and the move to the results behind the last file.
  unfoldable pub conclude_file : Bool → UploadState Num → UploadState Num
  unfolding finish
  conclude_file last s = if last then record (finish s) { at_results = true } else finish s

  -- `await`: a failure leaves the loop, else it goes on.
  unfoldable pub after_answer :
      Option Str → UploadState Num → UploadState Num × Option Str → UploadState Num × Option Str
  after_answer none answered others = others
  after_answer (some message) answered others = (answered, some message)

  -- The `for` loop, from file `i` of `count`.
  unfoldable pub submit_each :
      (ℕ → Outcome) → ℕ → List UploadedFile → ℕ → UploadState Num → UploadState Num × Option Str
  submit_each server count [] i s = (s, none)
  submit_each server count (f ∷ rest) i s =
      let answered = send (file_request s f) (server i) (start_file i s) in
      after_answer (server i).failure answered
        (submit_each server count rest (i + 1) (conclude_file (i == count - 1) answered))

  unfoldable pub start_submit : UploadState Num → UploadState Num
  start_submit s = record s { loading = true; error = []; loaded = 0; total = 0; index = 0 }

  -- The `try` block: request `i` meets `server i`.
  unfoldable pub submit_files : (ℕ → Outcome) → UploadState Num → UploadState Num × Option Str
  submit_files server s =
      if length s.files == 1 || not (is_sequential s.multi_mode)
      then submit_together (server 0) s
      else submit_each server (length s.files) s.files 0 s

  unfoldable pub stop_loading : UploadState Num → UploadState Num
  stop_loading s = record s { loading = false }

  -- `!name || files.length === 0 || validationError || loading`
  unfoldable pub is_blocked : Option ValidationError → UploadState Num → Bool
  is_blocked (some e) s = true
  is_blocked none s = str_eq s.name [] || length s.files == 0 || s.loading

  unfoldable pub handle_submit :
      Option ValidationError → (ℕ → Outcome) → UploadState Num → UploadState Num
  handle_submit validation_error server s =
      if is_blocked validation_error s
      then s
      else stop_loading (catch_failure (submit_files server (start_submit s)))
