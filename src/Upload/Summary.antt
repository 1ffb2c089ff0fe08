-- ===== src/Upload/Summary.antt =====
-- What the upload page says of an upload, and when it can be submitted (`uploadPercent`,
-- `fileListSummary`, `handleDrop`, `handleFileInput` and `canSubmit` of pages/UploadPage.tsx).
use bit_bench.Prelude.{
  ℕ, ◌+◌, ◌*◌, ◌/◌, ◌≡◌, refl, Option, none, some, List, [], ◌∷◌, ◌++◌, Bool, true, false, not,
  ◌&&◌, Str, codes, str_eq, if◌then◌else◌, length, ltb, arith,
}
use bit_bench.Prelude.Decimal.{decimal}
use bit_bench.Progress.{UploadPhase, idle, uploading, processing, done, error}
use bit_bench.Options.{Numeric}
use bit_bench.Instances.{InstanceDraft, Registry, ValidationError, validate_instances}
use bit_bench.Upload.{
  MultiMode, UploadedFile, UploadState, is_sequential, is_blocked, handle_file_change,
}

-- `!validationError`: a message is not empty.
unfoldable pub is_valid : Option ValidationError → Bool
is_valid none = true
is_valid (some e) = false

module _ {Num : Type 0} where
  -- A drop or a selection of files; none of them changes nothing.
  unfoldable pub handle_files : List UploadedFile → UploadState Num → UploadState Num
  handle_files files s = if ltb 0 (length files) then handle_file_change files s else s

  unfoldable pub set_name : Str → UploadState Num → UploadState Num
  set_name name s = record s { name = name }

  unfoldable pub set_multi_mode : MultiMode → UploadState Num → UploadState Num
  set_multi_mode mode s = record s { multi_mode = mode }

  -- The button that takes all files off the list.
  unfoldable pub clear_files : UploadState Num → UploadState Num
  clear_files s = record s { files = []; error = []; phase = idle }

  -- `Math.round((loaded / total) * 100)`, with the share compared exactly
  unfoldable pub upload_percent : UploadState Num → Option ℕ
  upload_percent s =
      if ltb 0 s.total then some ((200 * s.loaded + s.total) / (2 * s.total)) else none

  unfoldable pub uploading_prefix : UploadState Num → Str
  uploading_prefix s =
      if is_sequential s.multi_mode && ltb 1 (length s.files)
      then codes "Uploading file "
        ++ decimal (s.index + 1)
        ++ codes " of "
        ++ decimal (length s.files)
      else codes "Uploading"

  unfoldable pub phase_summary : UploadPhase → UploadState Num → Str
  unfolding upload_percent uploading_prefix
  phase_summary processing s = codes "Upload complete — processing on the server…"
  phase_summary done s = codes "Uploaded"
  phase_summary uploading s = elim (upload_percent s) [
    | none ↦ uploading_prefix s ++ codes "…"
    | some percent ↦ uploading_prefix s ++ codes " — " ++ decimal percent ++ codes "%"
  ]
  phase_summary idle s = codes "Submitting…"
  phase_summary error s = codes "Submitting…"

  unfoldable pub file_list_summary : UploadState Num → Str
  unfolding phase_summary
  file_list_summary s =
      if not s.loading then decimal (length s.files) ++ codes " files" else phase_summary s.phase s

  unfoldable pub can_submit : Option ValidationError → UploadState Num → Bool
  unfolding is_valid
  can_submit validation s =
      not (str_eq s.name [])
      && ltb 0 (length s.files)
      && ltb 0 (length s.instances)
      && is_valid validation

empty_refused :
    {Num : Type 0} ⦃n : Numeric Num⦄ (instances : List (InstanceDraft Num))
    (registry : Registry Num) (custom_names : List Str)
    → is_valid (validate_instances instances registry custom_names) ≡ true
    → ltb 0 (length instances) ≡ true
unfolding validate_instances is_valid
empty_refused [] registry custom_names h = cc h
empty_refused (i ∷ instances) registry custom_names h = ground arith

blocked_test :
    {Num : Type 0} (validation : Option ValidationError) (s : UploadState Num)
    → (is_valid validation ≡ true → ltb 0 (length s.instances) ≡ true)
    → (can_submit validation s && not s.loading) ≡ not (is_blocked validation s)
unfolding can_submit is_valid is_blocked
blocked_test none s h = let some_instance = h refl in ground (arith, some_instance)
blocked_test (some e) s h = ground arith

-- The button that submits is enabled exactly where a submission is not turned away at once.
pub can_submit-is_blocked :
    {Num : Type 0} ⦃n : Numeric Num⦄ (registry : Registry Num) (custom_names : List Str)
    (s : UploadState Num)
    → let validation = validate_instances s.instances registry custom_names in
      (can_submit validation s && not s.loading) ≡ not (is_blocked validation s)
can_submit-is_blocked registry custom_names s =
    blocked_test (validate_instances s.instances registry custom_names) s
      (empty_refused s.instances registry custom_names)
