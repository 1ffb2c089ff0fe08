-- ===== src/Progress.antt =====
-- Per-file statuses of an upload (lib/upload-progress.ts). Byte counts of the request are natural
-- numbers and file sizes are integers, whose sums doubles hold exactly up to `max_safe_integer`. The
-- comparison `end <= (loaded / total) * totalBytes` is made in doubles, whose operations and
-- rounding are a parameter.
pub mod Shares
pub mod Laws
use bit_bench.Prelude.{
  ℕ, zero, suc, ◌+◌, ◌*◌, Option, none, some, List, [], ◌∷◌, ◌++◌, Bool, true, false, ◌&&◌,
  if◌then◌else◌, ltb, ◌==◌, length, ◌≤◌, ◌<◌, ◌≡◌, get_elem?, map, map_index,
}
use bit_bench.Prelude.Int.{ℤ, pos_part}

pub data UploadPhase : Type 0 where
  idle uploading processing done error : UploadPhase

pub data FileUploadStatus : Type 0 where
  ready uploading sent processing done error : FileUploadStatus

-- The loop of `cumulativeBytes`; `Math.max(0, size)` is the positive part.
cumulative_from : ℕ → List ℤ → List ℕ
cumulative_from sum [] = []
cumulative_from sum (size ∷ files) =
    (sum + pos_part size) ∷ cumulative_from (sum + pos_part size) files

unfoldable pub cumulative_bytes : List ℤ → List ℕ
unfolding cumulative_from
cumulative_bytes files = cumulative_from 0 files

-- `files.reduce((sum, file) => sum + Math.max(0, file.size), 0)`
total_from : ℕ → List ℤ → ℕ
total_from sum [] = sum
total_from sum (size ∷ files) = total_from (sum + pos_part size) files

unfoldable pub total_file_bytes : List ℤ → ℕ
unfolding total_from
total_file_bytes files = total_from 0 files

-- `Number.MAX_SAFE_INTEGER`: up to it the doubles hold every integer.
abbrev pub max_safe_integer : ℕ
max_safe_integer = 9007199254740991

-- What the source uses of JavaScript's numbers, with what IEEE 754 says of it: the order is
-- transitive, and on integers theirs; a quotient by and a product with a positive number round
-- monotonically; `t / t` is 1 and `1 * c` is `c`.
pub record Doubles (D : Type 0) : Type 0 where
  pub of_nat : ℕ → D
  pub le : D → D → Bool
  pub div : D → D → D
  pub mul : D → D → D
  pub le_trans : (a b c : D) → le a b ≡ true → le b c ≡ true → le a c ≡ true
  pub of_nat_mono : (m n : ℕ) → m ≤ n → le (of_nat m) (of_nat n) ≡ true
  pub div_mono :
      (m n t : ℕ)
      → m ≤ n
      → 0 < t
      → n ≤ max_safe_integer
      → t ≤ max_safe_integer
      → le (div (of_nat m) (of_nat t)) (div (of_nat n) (of_nat t)) ≡ true
  pub mul_mono :
      (a b : D) (c : ℕ)
      → le a b ≡ true
      → 0 < c
      → c ≤ max_safe_integer
      → le (mul a (of_nat c)) (mul b (of_nat c)) ≡ true
  pub div_self : (t : ℕ) → 0 < t → t ≤ max_safe_integer → div (of_nat t) (of_nat t) ≡ of_nat 1
  pub one_mul : (c : ℕ) → c ≤ max_safe_integer → mul (of_nat 1) (of_nat c) ≡ of_nat c

module _ {D : Type 0} (d : Doubles D) where
  -- `Math.min(a, b)`
  unfoldable pub min_double : D → D → D
  min_double a b = if d.le a b then a else b

  -- `Math.min(totalBytes, (loaded / total) * totalBytes)`
  unfoldable pub sent_file_bytes : ℕ → ℕ → ℕ → D
  unfolding min_double
  sent_file_bytes loaded total total_bytes =
      let all = d.of_nat total_bytes in
      min_double all (d.mul (d.div (d.of_nat loaded) (d.of_nat total)) all)

  -- `ends[index] <= sentFileBytes ? 'sent' : 'uploading'`
  unfoldable pub sent_status : Option ℕ → D → FileUploadStatus
  sent_status none bytes = FileUploadStatus.uploading
  sent_status (some end) bytes =
      if d.le (d.of_nat end) bytes then FileUploadStatus.sent else FileUploadStatus.uploading

  unfoldable pub batch_file_statuses : List ℤ → UploadPhase → ℕ → ℕ → List FileUploadStatus
  batch_file_statuses files UploadPhase.idle loaded total = map (λ _. FileUploadStatus.ready) files
  batch_file_statuses files UploadPhase.processing loaded total =
      map (λ _. FileUploadStatus.processing) files
  batch_file_statuses files UploadPhase.done loaded total = map (λ _. FileUploadStatus.done) files
  batch_file_statuses files UploadPhase.error loaded total = map (λ _. FileUploadStatus.error) files
  batch_file_statuses files UploadPhase.uploading loaded total =
      if total == 0
      then map (λ _. FileUploadStatus.uploading) files
      else let total_bytes = total_file_bytes files in
        (if total_bytes == 0
          then map (λ _. FileUploadStatus.sent) files
          else let bytes = sent_file_bytes loaded total total_bytes in
            let ends = cumulative_bytes files in
            map_index (λ index _. sent_status (get_elem? ends index) bytes) 0 files)

-- `phase === 'idle' ? 'ready' : phase`
unfoldable pub active_status : UploadPhase → FileUploadStatus
active_status UploadPhase.idle = FileUploadStatus.ready
active_status UploadPhase.uploading = FileUploadStatus.uploading
active_status UploadPhase.processing = FileUploadStatus.processing
active_status UploadPhase.done = FileUploadStatus.done
active_status UploadPhase.error = FileUploadStatus.error

-- The loop of `sequentialFileStatuses`, with the rounds that are left and the index.
unfoldable pub sequential_from : ℕ → ℕ → ℕ → UploadPhase → List FileUploadStatus
unfolding active_status
sequential_from zero index active phase = []
sequential_from (suc left) index active phase =
    (if ltb index active
      then FileUploadStatus.done
      else (if index == active then active_status phase else FileUploadStatus.ready))
    ∷ sequential_from left (suc index) active phase

unfoldable pub sequential_file_statuses : ℕ → ℕ → UploadPhase → List FileUploadStatus
unfolding sequential_from
sequential_file_statuses count active phase = sequential_from count 0 active phase
