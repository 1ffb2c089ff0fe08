-- ===== src/Options/Naturals.antt =====
-- Natural numbers as the numbers of an option, for evaluation.
use bit_bench.Prelude.{ℕ, ==_iff, ◌==◌, In, arith, inl, inr, [], ◌∷◌, Str, All}
use bit_bench.Prelude.Decimal.{decimal, decimal-injective, decimal-IsDigit, IsDigit}
use bit_bench.Options.{Numeric}

digits_plain : (s : Str) → All IsDigit s → ¬ (In b';' s)
digits_plain [] h m = m
digits_plain (c ∷ s) (d, h) (inl e) = omega arith
digits_plain (c ∷ s) (d, h) (inr m) = digits_plain s h m

pub decimal_plain : (n : ℕ) → ¬ (In b';' (decimal n))
decimal_plain n = digits_plain (decimal n) (decimal-IsDigit n)

instance abbrev pub naturals : Numeric ℕ
naturals = record {
  num_eq = ◌==◌;
  to_string = decimal;
  num_eq_iff = ==_iff;
  to_string_inj = decimal-injective;
  to_string_plain = decimal_plain;
}
