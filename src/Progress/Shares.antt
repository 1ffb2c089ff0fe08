-- ===== src/Progress/Shares.antt =====
-- What the statuses of a batch say while its bytes are being sent.
use bit_bench.Prelude.{
  ◌≡◌, refl, ◌↔◌, inl, inr, ℕ, suc, ◌+◌, ◌≤◌, ◌<◌, some, List, true, Bool-cases, if◌then◌else◌,
  ◌==◌, get_elem?, take, arith, get_elem?-map_index, get_elem?-map, lt-length_of_get_elem?, ◌∙◌, ap,
}
use bit_bench.Prelude.Int.{ℤ}
use bit_bench.Progress.{
  UploadPhase, FileUploadStatus, cumulative_bytes, total_file_bytes, Doubles, max_safe_integer,
  min_double, sent_file_bytes, sent_status, batch_file_statuses,
}
use bit_bench.Progress.Laws.{get_elem?-cumulative_bytes, part-le-total, part-le-part}

module _ {D : Type 0} (d : Doubles D) where
  -- What is at most the smaller of two numbers, and what is at most both.
  below_min : (a b c : D) → d.le c (min_double d a b) ≡ true → d.le c b ≡ true
  unfolding min_double
  below_min a b c h = elim (Bool-cases (d.le a b)) [
    | inl e ↦ d.le_trans c a b (rw e at h) e
    | inr e ↦ rw e at h
  ]

  below_both : (a b c : D) → d.le c a ≡ true → d.le c b ≡ true → d.le c (min_double d a b) ≡ true
  unfolding min_double
  below_both a b c p q = ground (arith, p, q)

  -- The share of the bytes grows with the bytes that are sent.
  share_mono :
      (loaded loaded' total all : ℕ)
      → loaded ≤ loaded'
      → 0 < total
      → 0 < all
      → loaded' ≤ max_safe_integer
      → total ≤ max_safe_integer
      → all ≤ max_safe_integer
      → d.le
          (d.mul (d.div (d.of_nat loaded) (d.of_nat total)) (d.of_nat all))
          (d.mul (d.div (d.of_nat loaded') (d.of_nat total)) (d.of_nat all))
        ≡ true
  share_mono loaded loaded' total all more known some_byte l t a =
      d.mul_mono _ _ all (d.div_mono loaded loaded' total more known l t) some_byte a

  -- The status of file `i` while the request is being sent.
  status_shown : ℕ → ℕ → ℕ → ℕ → FileUploadStatus
  status_shown part loaded total all =
      if total == 0
      then FileUploadStatus.uploading
      else (if all == 0
          then FileUploadStatus.sent
          else sent_status d (some part) (sent_file_bytes d loaded total all))

  get_elem?-batch_file_statuses :
      (files : List ℤ) (loaded total i : ℕ) (size : ℤ)
      → get_elem? files i ≡ some size
      → get_elem? (batch_file_statuses d files UploadPhase.uploading loaded total) i
        ≡ some (
            status_shown
              (total_file_bytes (take (suc i) files))
              loaded
              total
              (total_file_bytes files))
  unfolding batch_file_statuses status_shown
  get_elem?-batch_file_statuses files loaded total i size h = elim (Bool-cases (total == 0)) [
    | inl e ↦ rw e (get_elem?-map (λ _. FileUploadStatus.uploading) i files size h)
    | inr e ↦ elim (Bool-cases (total_file_bytes files == 0)) [
      | inl z ↦ rw (e, z) (get_elem?-map (λ _. FileUploadStatus.sent) i files size h)
      | inr z ↦ rw (e, z) (get_elem?-map_index _ 0 i files size h ∙ ap some at_end)
    ]
  ]
    where
      at_end :
          sent_status d
            (get_elem? (cumulative_bytes files) (0 + i))
            (sent_file_bytes d loaded total (total_file_bytes files))
          ≡ sent_status d
              (some (total_file_bytes (take (suc i) files)))
              (sent_file_bytes d loaded total (total_file_bytes files))
      at_end =
          let z : 0 + i ≡ i = omega arith in
          rw (z, get_elem?-cumulative_bytes i files (lt-length_of_get_elem? files i size h)) refl

  -- A file is shown as sent exactly where the size of the request is known and, unless there is
  -- nothing to send, its end is at most the bytes that count as sent.
  status_shown_iff :
      (part loaded total all : ℕ)
      → (status_shown part loaded total all ≡ FileUploadStatus.sent) ↔ (
          (0 < total)
          × (0 < all → d.le (d.of_nat part) (sent_file_bytes d loaded total all) ≡ true))
  unfolding status_shown sent_status
  status_shown_iff part loaded total all = ground arith

  -- The end of a file among the bytes that count as sent, as more are sent, and of the files before.
  sent_file_bytes_mono :
      (part part' loaded loaded' total all : ℕ)
      → part' ≤ part
      → part' ≤ all
      → loaded ≤ loaded'
      → 0 < total
      → 0 < all
      → loaded' ≤ max_safe_integer
      → total ≤ max_safe_integer
      → all ≤ max_safe_integer
      → d.le (d.of_nat part) (sent_file_bytes d loaded total all) ≡ true
      → d.le (d.of_nat part') (sent_file_bytes d loaded' total all) ≡ true
  unfolding sent_file_bytes
  sent_file_bytes_mono part part' loaded loaded' total all before within more known some_byte l t a
        h =
      below_both _ _ _ (d.of_nat_mono part' all within) (
        d.le_trans _ _ _ (d.of_nat_mono part' part before) (
          d.le_trans _ _ _ (below_min _ _ _ h)
            (share_mono loaded loaded' total all more known some_byte l t a)))

  -- While the request is being sent, a file once shown as sent stays so as more bytes are sent, and
  -- so do the files before it, for byte counts that are safe integers.
  pub batch_file_statuses_mono :
      (files : List ℤ) (loaded loaded' total i j : ℕ) (size size' : ℤ)
      → loaded ≤ loaded'
      → j ≤ i
      → loaded' ≤ max_safe_integer
      → total ≤ max_safe_integer
      → total_file_bytes files ≤ max_safe_integer
      → get_elem? files i ≡ some size
      → get_elem? files j ≡ some size'
      → get_elem? (batch_file_statuses d files UploadPhase.uploading loaded total) i
        ≡ some FileUploadStatus.sent
      → get_elem? (batch_file_statuses d files UploadPhase.uploading loaded' total) j
        ≡ some FileUploadStatus.sent
  batch_file_statuses_mono files loaded loaded' total i j size size' more before l t a at at'
        sent_i =
      let (known, share) =
        (status_shown_iff _ loaded total (total_file_bytes files)).0
          (cc (sent_i, get_elem?-batch_file_statuses files loaded total i size at)) in
      get_elem?-batch_file_statuses files loaded' total j size' at'
      ∙ ap some (
          (status_shown_iff _ loaded' total (total_file_bytes files)).1 (
            known,
            (λ some_byte.
                sent_file_bytes_mono _ _ loaded loaded' total (total_file_bytes files)
                  (part-le-part files i j before) (part-le-total files j) more known some_byte l t a
                  (share some_byte)),
          ))
