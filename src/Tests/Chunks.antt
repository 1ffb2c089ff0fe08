-- ===== src/Tests/Chunks.antt =====
-- The theorem on checksums at a hash that keeps what is appended to it.
use bit_bench.Prelude.{◌≡◌, ℕ, List, [], ◌∷◌, ◌++◌, some, append_assoc, length}
use bit_bench.Checksum.{compute_md5, compute_md5_lem}

abbrev join_bytes : List ℕ → List ℕ → List ℕ
join_bytes h xs = h ++ xs

compute_md5_lem_example : compute_md5 join_bytes length [] (1 ∷ 2 ∷ 3 ∷ []) ≡ some 3
compute_md5_lem_example = compute_md5_lem join_bytes length append_assoc [] (1 ∷ 2 ∷ 3 ∷ [])
