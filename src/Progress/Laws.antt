-- ===== src/Progress/Laws.antt =====
-- What the sums of file sizes are, and what a sequential upload shows.
use bit_bench.Prelude.{
  ◌≡◌, refl, ℕ, zero, suc, ◌+◌, ◌≤◌, ◌<◌, some, List, [], ◌∷◌, ◌++◌, length, get_elem?, take, arith,
  take_all, replicate, ap,
}
use bit_bench.Prelude.Int.{ℤ, pos_part}
use bit_bench.Progress.{
  UploadPhase, FileUploadStatus, cumulative_from, cumulative_bytes, total_from, total_file_bytes,
  active_status, sequential_from, sequential_file_statuses,
}

total_from_lem : (sum : ℕ) (files : List ℤ) → total_from sum files ≡ sum + total_from 0 files
unfolding total_from
total_from_lem sum [] = omega arith
total_from_lem sum (size ∷ files) =
    omega
      (arith, total_from_lem (sum + pos_part size) files, total_from_lem (0 + pos_part size) files)

get_elem?-cumulative_from :
    (sum i : ℕ) (files : List ℤ)
    → i < length files
    → get_elem? (cumulative_from sum files) i ≡ some (total_from sum (take (suc i) files))
unfolding cumulative_from total_from
get_elem?-cumulative_from sum i [] h = elim h [ ]
get_elem?-cumulative_from sum zero (size ∷ files) h = refl
get_elem?-cumulative_from sum (suc i) (size ∷ files) h =
    get_elem?-cumulative_from (sum + pos_part size) i files (omega arith)

-- The end of file `i` is the size of the first `i + 1` files.
pub get_elem?-cumulative_bytes :
    (i : ℕ) (files : List ℤ)
    → i < length files
    → get_elem? (cumulative_bytes files) i ≡ some (total_file_bytes (take (suc i) files))
unfolding cumulative_bytes total_file_bytes
get_elem?-cumulative_bytes i files h = get_elem?-cumulative_from 0 i files h

-- The bytes of the first files are at most those of all, and grow with the number of files.
total_from-take_mono :
    (i j : ℕ) (files : List ℤ) → i ≤ j → total_from 0 (take i files) ≤ total_from 0 (take j files)
unfolding total_from
total_from-take_mono zero j files h = omega arith
total_from-take_mono (suc i) zero files h = elim h [ ]
total_from-take_mono (suc i) (suc j) [] h = omega arith
total_from-take_mono (suc i) (suc j) (size ∷ files) h = omega (
  arith,
  total_from-take_mono i j files (omega arith),
  total_from_lem (0 + pos_part size) (take i files),
  total_from_lem (0 + pos_part size) (take j files),
)

pub part-le-total :
    (files : List ℤ) (i : ℕ) → total_file_bytes (take (suc i) files) ≤ total_file_bytes files
unfolding total_file_bytes
part-le-total files i = omega (
  arith,
  total_from-take_mono (suc i) (suc i + length files) files (omega arith),
  ap (total_from 0) (take_all (suc i + length files) files (omega arith)),
)

pub part-le-part :
    (files : List ℤ) (i j : ℕ)
    → j ≤ i
    → total_file_bytes (take (suc j) files) ≤ total_file_bytes (take (suc i) files)
unfolding total_file_bytes
part-le-part files i j h = total_from-take_mono (suc j) (suc i) files (omega arith)

sequential_rest :
    (left index active : ℕ) (phase : UploadPhase)
    → active < index
    → sequential_from left index active phase ≡ replicate left FileUploadStatus.ready
unfolding sequential_from
sequential_rest zero index active phase h = refl
sequential_rest (suc left) index active phase h =
    ground (arith, sequential_rest left (suc index) active phase)

sequential_ahead :
    (before left index : ℕ) (phase : UploadPhase)
    → sequential_from (before + suc left) index (index + before) phase
      ≡ replicate before FileUploadStatus.done
        ++ active_status phase ∷ replicate left FileUploadStatus.ready
unfolding sequential_from
sequential_ahead zero left index phase =
    let z : 0 + suc left ≡ suc left = omega arith in
    let y : index + 0 ≡ index = omega arith in
    rw (z, y) (ground (arith, sequential_rest left (suc index) index phase (omega arith)))
sequential_ahead (suc before) left index phase =
    let z : suc before + suc left ≡ suc (before + suc left) = omega arith in
    let y : index + suc before ≡ suc index + before = omega arith in
    rw (z, y) (ground (arith, sequential_ahead before left (suc index) phase))

-- In a sequential upload the files before the active one are done, the active one shows the
-- phase, and the ones behind it are ready.
pub sequential_file_statuses_lem :
    (before after : ℕ) (phase : UploadPhase)
    → sequential_file_statuses (before + suc after) before phase
      ≡ replicate before FileUploadStatus.done
        ++ active_status phase ∷ replicate after FileUploadStatus.ready
unfolding sequential_file_statuses
sequential_file_statuses_lem before after phase =
    let z : 0 + before ≡ before = omega arith in rw z at (sequential_ahead before after 0 phase)
