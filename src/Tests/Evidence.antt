-- ===== src/Tests/Evidence.antt =====
-- What the theorems at concrete inputs ask for, by evaluation.
use bit_bench.Prelude.{
  ℕ, ◌≡◌, ◌≢◌, inl, inr, List, [], ◌∷◌, Bool, true, false, Str, In, AllDistinct, arith,
  if◌then◌else◌, ltb, ◌==◌, has, has_iff, none, some, ◌&&◌, not, str_eq, str_eq_iff,
}
use bit_bench.Results.{Ordered}

abbrev pub lacks : ℕ → Str → Bool
lacks c [] = true
lacks c (d ∷ s) = if c == d then false else lacks c s

pub absent : (c : ℕ) (s : Str) → lacks c s ≡ true → ¬ (In c s)
absent c [] h m = m
absent c (d ∷ s) h (inl e) = ground arith
absent c (d ∷ s) h (inr m) = absent c s (ground arith) m

unfoldable pub distinct_names : List Str → Bool
distinct_names [] = true
distinct_names (k ∷ ks) = not (has k ks) && distinct_names ks

pub all_distinct : (ks : List Str) → distinct_names ks ≡ true → AllDistinct ks
unfolding distinct_names
all_distinct [] h = tt
all_distinct (k ∷ ks) h =
    ((λ m. let e = (has_iff k ks).1 m in ground arith), all_distinct ks (ground arith))

pub some-ne-none : {A : Type 0} (a : A) → some a ≢ none
some-ne-none a e = cc

pub other_text : (s t : Str) → str_eq s t ≡ false → s ≢ t
other_text s t h e = cc (h, (str_eq_iff s t).1 e)

pub ltb_irrefl : (a : ℕ) → ltb a a ≡ false
ltb_irrefl a = ground arith

pub ltb_trans : (a b c : ℕ) → ltb a b ≡ true → ltb b c ≡ true → ltb a c ≡ true
ltb_trans a b c p q = ground arith

pub ltb_connected : (a b : ℕ) → ltb a b ≡ false → ltb b a ≡ false → a ≡ b
ltb_connected a b p q = ground arith

instance abbrev pub ordered_naturals : Ordered ℕ
ordered_naturals = record {
  lt = ltb;
  lt_irrefl = ltb_irrefl;
  lt_trans = ltb_trans;
  lt_connected = ltb_connected;
}
