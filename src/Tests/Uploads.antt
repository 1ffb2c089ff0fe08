-- ===== src/Tests/Uploads.antt =====
-- The theorems on upload statuses at the files of lib/upload-progress.test.ts.
use bit_bench.Prelude.{
  ◌≡◌, refl, ℕ, ◌*◌, ◌/◌, ◌≤◌, ◌<◌, some, List, [], ◌∷◌, true, get_elem?, leb, arith,
}
use native.Mathlib.Nat.{div-lt_iff_lt-mul, mul-div_right, div-mul-le_self}
use bit_bench.Prelude.Int.{ℤ, pos}
use bit_bench.Progress.{
  UploadPhase, FileUploadStatus, Doubles, batch_file_statuses, total_file_bytes, cumulative_bytes,
  sent_status, sent_file_bytes, min_double,
}
use bit_bench.Progress.Shares.{batch_file_statuses_mono}

pub quotient_mono : (m n t : ℕ) → m ≤ n → 0 < t → m / t ≤ n / t
quotient_mono m n t h positive =
    grind (arith, (div-lt_iff_lt-mul {x = n} {y = m / t} positive).0, div-mul-le_self m t)

pub quotient_self : (t : ℕ) → 0 < t → (t * 1000) * 1000 / (t * 1000) ≡ 1000
quotient_self t positive = mul-div_right 1000 (omega arith)

pub leb_of_le : (m n : ℕ) → m ≤ n → leb m n ≡ true
leb_of_le m n h = ground arith

pub leb_trans : (a b c : ℕ) → leb a b ≡ true → leb b c ≡ true → leb a c ≡ true
leb_trans a b c p q = ground arith

pub product_mono : (a b c : ℕ) → leb a b ≡ true → a * (c * 1000) / 1000 ≤ b * (c * 1000) / 1000
product_mono a b c h =
    let le : a ≤ b = ground arith in quotient_mono _ _ 1000 (grind arith) (omega arith)

pub product_one : (c : ℕ) → 1 * 1000 * (c * 1000) / 1000 ≡ c * 1000
product_one c = omega arith

-- Numbers in thousandths, rounded down.
abbrev pub thousandths : Doubles ℕ
thousandths = record {
  of_nat = λ n. n * 1000;
  le = leb;
  div = λ m n. m * 1000 / n;
  mul = λ m n. m * n / 1000;
  le_trans = leb_trans;
  of_nat_mono = λ m n h. leb_of_le (m * 1000) (n * 1000) (omega arith);
  div_mono = λ m n t h known _ _.
      leb_of_le _ _
        (quotient_mono (m * 1000 * 1000) (n * 1000 * 1000) (t * 1000) (omega arith) (omega arith));
  mul_mono = λ a b c h _ _. leb_of_le _ _ (product_mono a b c h);
  div_self = λ t known _. quotient_self t known;
  one_mul = λ c _. product_one c;
}

abbrev files : List ℤ
files = pos 100 ∷ pos 200 ∷ pos 300 ∷ []

-- With 306 of 612 bytes sent, the second file is sent, and so is the first with 310.
batch_file_statuses_mono_example :
    get_elem? (batch_file_statuses thousandths files UploadPhase.uploading 310 612) 0
    ≡ some FileUploadStatus.sent
batch_file_statuses_mono_example =
    batch_file_statuses_mono thousandths files 306 310 612 1 0 (pos 200) (pos 100) (omega arith)
      (omega arith) (omega arith) (omega arith) (unfold total_file_bytes in omega arith) refl refl
      (unfold batch_file_statuses total_file_bytes cumulative_bytes sent_status sent_file_bytes
          min_double in
        refl)
