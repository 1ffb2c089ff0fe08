-- ===== src/Prelude/Decimal.antt =====
-- Decimal printing of natural numbers, as `Number.prototype.toString` prints a whole number
-- below 10^21.
use Prim.Native.Nat.{ℕ, zero, suc, ◌+◌, ◌-◌, ◌*◌, ◌/◌, ◌%◌, ◌<◌, ◌≤◌}
use mathlib.Core.Path.{◌≡◌, ap, sym, ◌∙◌}
use mathlib.Core.List.{[], ◌∷◌}
use native.Mathlib.Omega.{arith}
use bit_bench.Prelude.Tests.{if◌then◌else◌, ltb, Bool-cases}
use mathlib.Core.Logic.{inl, inr}
use mathlib.Core.Bool.{true}
use bit_bench.Prelude.Lists.{All, length}
use bit_bench.Prelude.Text.{Str}

-- The digits of `n` in front of `rest`; the first argument bounds their number.
digits_from : ℕ → ℕ → Str → Str
digits_from zero n rest = rest
digits_from (suc f) n rest =
    let more = digits_from f (n / 10) ((b'0' + n % 10) ∷ rest) in
    if ltb n 10 then (b'0' + n) ∷ rest else more

unfoldable pub decimal : ℕ → Str
unfolding digits_from
decimal n = digits_from (suc n) n []

-- The number that a row of digits denotes, read behind `acc`.
value_from : ℕ → Str → ℕ
value_from acc [] = acc
value_from acc (c ∷ s) = value_from (acc * 10 + (c - b'0')) s

value_from-digits_from :
    (f n : ℕ) (rest : Str) → n < f → value_from 0 (digits_from f n rest) ≡ value_from n rest
unfolding value_from digits_from
value_from-digits_from zero n rest h = elim h [ ]
value_from-digits_from (suc f) n rest h = elim (Bool-cases (ltb n 10)) [
  | inl e ↦ rw e (ap (λ k. value_from k rest) (omega arith))
  | inr e ↦ rw e (
      value_from-digits_from f (n / 10) ((b'0' + n % 10) ∷ rest) (ground arith)
      ∙ ap (λ k. value_from k rest) (omega arith))
]

value_from-decimal : (n : ℕ) → value_from 0 (decimal n) ≡ n
unfolding decimal value_from
value_from-decimal n = value_from-digits_from (suc n) n [] (omega arith)

pub decimal-injective : (m n : ℕ) → decimal m ≡ decimal n → m ≡ n
decimal-injective m n h = sym (value_from-decimal m) ∙ ap (value_from 0) h ∙ value_from-decimal n

-- Only the digits `0` to `9` are printed.
abbrev pub IsDigit : ℕ → Type 0
IsDigit c = (b'0' ≤ c) × (c ≤ b'9')

digits_from-IsDigit : (f n : ℕ) (rest : Str) → All IsDigit rest → All IsDigit (digits_from f n rest)
unfolding digits_from
digits_from-IsDigit zero n rest h = h
digits_from-IsDigit (suc f) n rest h =
    ground (arith, digits_from-IsDigit f (n / 10) ((b'0' + n % 10) ∷ rest))

pub decimal-IsDigit : (n : ℕ) → All IsDigit (decimal n)
unfolding decimal
decimal-IsDigit n = digits_from-IsDigit (suc n) n [] tt

one_digit :
    (f n : ℕ) (rest : Str) → n < 10 → length (digits_from (suc f) n rest) ≤ suc (length rest)
unfolding digits_from
one_digit f n rest h = let e : ltb n 10 ≡ true = ground arith in rw e (omega arith)

-- A number below 100 is printed with at most two digits.
pub length-decimal : (n : ℕ) → n < 100 → length (decimal n) ≤ 2
unfolding decimal digits_from
length-decimal zero h = omega arith
length-decimal (suc n) h = elim (Bool-cases (ltb (suc n) 10)) [
  | inl e ↦ rw e (omega arith)
  | inr e ↦ rw e (one_digit n (suc n / 10) ((b'0' + suc n % 10) ∷ []) (omega arith))
]
