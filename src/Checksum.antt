-- ===== src/Checksum.antt =====
-- The checksum of a file, read in chunks (lib/md5.ts). The incremental hash (SparkMD5) is a
-- parameter. A read that fails, which rejects the promise, is left out.
use bit_bench.Prelude.{
  ℕ, zero, suc, ◌+◌, ◌-◌, ◌*◌, ◌≤◌, ◌<◌, min, ◌≡◌, refl, Option, none, some, List, [], ◌∷◌, ◌++◌,
  take, drop, length, ltb, if◌then◌else◌, arith, ap, ◌∙◌, inl, inr, Bool-cases, take_all,
  length-drop, take-append-drop,
}

-- 2 MB
abbrev pub chunk_size : ℕ
chunk_size = 2097152

module _ {Byte : Type 0} where
  -- `file.slice(start, end)`
  unfoldable pub slice : ℕ → ℕ → List Byte → List Byte
  slice start end file = take (end - start) (drop start file)

  -- What `loadNext` reads.
  unfoldable pub chunk : List Byte → ℕ → List Byte
  unfolding slice
  chunk file k =
      let start = k * chunk_size in slice start (min (start + chunk_size) (length file)) file

module _ {Byte Hash Digest : Type 0} (append : Hash → List Byte → Hash) (end : Hash → Digest) where
  -- The rounds of `reader.onload` from chunk `k`, with the rounds that are left.
  unfoldable pub digest_from : ℕ → List Byte → ℕ → Hash → Option Digest
  digest_from zero file k spark = none
  digest_from (suc fuel) file k spark =
      let appended = append spark (chunk file k) in
      let later = digest_from fuel file (k + 1) appended in
      if ltb ((k + 1) * chunk_size) (length file) then later else some (end appended)

  unfoldable pub compute_md5 : Hash → List Byte → Option Digest
  unfolding digest_from
  compute_md5 spark file = digest_from (suc (length file)) file 0 spark

drop_add : {A : Type 0} (a b : ℕ) (xs : List A) → drop (a + b) xs ≡ drop b (drop a xs)
drop_add zero b xs = let e : 0 + b ≡ b = omega arith in rw e refl
drop_add (suc a) zero [] = let e : suc a + 0 ≡ suc a = omega arith in rw e refl
drop_add (suc a) (suc b) [] = let e : suc a + suc b ≡ suc (a + suc b) = omega arith in rw e refl
drop_add (suc a) b (x ∷ xs) =
    let e : suc a + b ≡ suc (a + b) = omega arith in rw e (drop_add a b xs)

chunk-append-drop :
    {Byte : Type 0} (file : List Byte) (k : ℕ)
    → (k + 1) * chunk_size < length file
    → chunk file k ++ drop ((k + 1) * chunk_size) file ≡ drop (k * chunk_size) file
unfolding chunk slice
chunk-append-drop file k more =
    let start = k * chunk_size in
    let size : min (start + chunk_size) (length file) - start ≡ chunk_size = omega (arith, more) in
    let next : (k + 1) * chunk_size ≡ start + chunk_size = omega arith in
    rw (size, next, drop_add start chunk_size file) (take-append-drop chunk_size (drop start file))

last_chunk :
    {Byte : Type 0} (file : List Byte) (k : ℕ)
    → length file ≤ (k + 1) * chunk_size
    → k * chunk_size ≤ length file
    → chunk file k ≡ drop (k * chunk_size) file
unfolding chunk slice
last_chunk file k at_end start_in =
    let start = k * chunk_size in
    let size : min (start + chunk_size) (length file) - start ≡ length file - start =
      omega (arith, at_end) in
    rw size
      (take_all (length file - start) (drop start file) (omega (arith, length-drop start file)))

module _ {Byte Hash Digest : Type 0} (append : Hash → List Byte → Hash) (end : Hash → Digest)
    (append_append : (h : Hash) (xs ys : List Byte)
      → append (append h xs) ys ≡ append h (xs ++ ys)) where
  digest_from_lem :
      (fuel : ℕ) (file : List Byte) (k : ℕ) (spark : Hash)
      → k * chunk_size ≤ length file
      → length file < k * chunk_size + fuel
      → digest_from append end fuel file k spark
        ≡ some (end (append spark (drop (k * chunk_size) file)))
  unfolding digest_from
  digest_from_lem zero file k spark start_in enough = absurd (omega arith)
  digest_from_lem (suc fuel) file k spark start_in enough =
      elim (Bool-cases (ltb ((k + 1) * chunk_size) (length file))) [
        | inl more ↦
            let below : (k + 1) * chunk_size < length file = ground (arith, more) in
            rw more (
              digest_from_lem fuel file (k + 1) (append spark (chunk file k)) (omega (arith, below))
                (omega (arith, enough))
              ∙ ap (λ h. some (end h))
                  (append_append spark (chunk file k) (drop ((k + 1) * chunk_size) file)
                    ∙ ap (append spark) (chunk-append-drop file k below)))
        | inr stop ↦
            let above : length file ≤ (k + 1) * chunk_size = ground (arith, stop) in
            rw stop (ap (λ c. some (end (append spark c))) (last_chunk file k above start_in))
      ]

  -- Where appending two pieces to the hash is appending both at once, reading a file in chunks
  -- ends, and its result is the digest of the whole file.
  pub compute_md5_lem :
      (spark : Hash) (file : List Byte)
      → compute_md5 append end spark file ≡ some (end (append spark file))
  unfolding compute_md5
  compute_md5_lem spark file =
      digest_from_lem (suc (length file)) file 0 spark (omega arith) (omega arith)
