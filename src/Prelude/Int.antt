-- ===== src/Prelude/Int.antt =====
-- Whole numbers with a sign, over the native numbers; `negsuc n` is -(n + 1).
use Prim.Native.Nat.{ℕ, suc, ◌≤◌}
use mathlib.Core.Path.{◌≡◌, ap, sym}
use mathlib.Core.Logic.{◌↔◌}
use mathlib.Core.Bool.{Bool, true, false}
use mathlib.Core.List.{[], ◌∷◌}
use native.Mathlib.Omega.{arith}
use bit_bench.Prelude.Tests.{ltb, ◌==◌}
use bit_bench.Prelude.Lists.{All}
use bit_bench.Prelude.Text.{Str}
use bit_bench.Prelude.Decimal.{decimal, decimal-injective, decimal-IsDigit, IsDigit}

pub data ℤ : Type 0 where
  pos : ℕ → ℤ
  negsuc : ℕ → ℤ

-- `Math.max(0, x)`
abbrev pub pos_part : ℤ → ℕ
pos_part (pos n) = n
pos_part (negsuc n) = 0

-- The distance from zero.
abbrev pub magnitude : ℤ → ℕ
magnitude (pos n) = n
magnitude (negsuc n) = suc n

abbrev pub int_lt : ℤ → ℤ → Bool
int_lt (pos m) (pos n) = ltb m n
int_lt (pos m) (negsuc n) = false
int_lt (negsuc m) (pos n) = true
int_lt (negsuc m) (negsuc n) = ltb n m

abbrev pub int_eq : ℤ → ℤ → Bool
int_eq (pos m) (pos n) = m == n
int_eq (negsuc m) (negsuc n) = m == n
int_eq _ _ = false

pub int_eq_iff : (x y : ℤ) → (int_eq x y ≡ true) ↔ (x ≡ y)
int_eq_iff (pos m) (pos n) = ground arith
int_eq_iff (pos m) (negsuc n) = ground arith
int_eq_iff (negsuc m) y = ground arith

-- A number between two others is no farther from zero than the farther of them.
pub magnitude_between :
    (lo hi x : ℤ) (m : ℕ)
    → magnitude lo ≤ m
    → magnitude hi ≤ m
    → int_lt x lo ≡ false
    → int_lt hi x ≡ false
    → magnitude x ≤ m
magnitude_between (pos a) (pos b) (pos c) m h h' p q = ground arith
magnitude_between (pos a) (pos b) (negsuc c) m h h' p q = ground arith
magnitude_between (pos a) (negsuc b) (pos c) m h h' p q = ground arith
magnitude_between (pos a) (negsuc b) (negsuc c) m h h' p q = ground arith
magnitude_between (negsuc a) (pos b) (pos c) m h h' p q = ground arith
magnitude_between (negsuc a) (pos b) (negsuc c) m h h' p q = ground arith
magnitude_between (negsuc a) (negsuc b) (pos c) m h h' p q = ground arith
magnitude_between (negsuc a) (negsuc b) (negsuc c) m h h' p q = ground arith

-- `strconv.Itoa(x)`, `Number.prototype.toString` on a whole number below 10^21
unfoldable pub itoa : ℤ → Str
itoa (pos n) = decimal n
itoa (negsuc n) = b'-' ∷ decimal (suc n)

-- The code units of a printed number: the digits and the minus sign.
abbrev pub IsSigned : ℕ → Type 0
IsSigned c = (b'-' ≤ c) × (c ≤ b'9')

digits-IsSigned : (s : Str) → All IsDigit s → All IsSigned s
digits-IsSigned [] h = tt
digits-IsSigned (c ∷ s) (d, h) = (omega arith, digits-IsSigned s h)

pub itoa-IsSigned : (x : ℤ) → All IsSigned (itoa x)
unfolding itoa
itoa-IsSigned (pos n) = digits-IsSigned (decimal n) (decimal-IsDigit n)
itoa-IsSigned (negsuc n) =
    (omega arith, digits-IsSigned (decimal (suc n)) (decimal-IsDigit (suc n)))

digits_unsigned : (s t : Str) → All IsDigit s → s ≡ b'-' ∷ t → ⊥
digits_unsigned [] t h e = cc
digits_unsigned (c ∷ s) t (d, h) e = ground arith

pub itoa-injective : (x y : ℤ) → itoa x ≡ itoa y → x ≡ y
unfolding itoa
itoa-injective (pos m) (pos n) e = ap pos (decimal-injective m n e)
itoa-injective (pos m) (negsuc n) e =
    absurd (digits_unsigned (decimal m) (decimal (suc n)) (decimal-IsDigit m) e)
itoa-injective (negsuc m) (pos n) e =
    absurd (digits_unsigned (decimal n) (decimal (suc m)) (decimal-IsDigit n) (sym e))
itoa-injective (negsuc m) (negsuc n) e =
    let same : suc m ≡ suc n = decimal-injective (suc m) (suc n) cc in
    let e' : m ≡ n = omega arith in ap negsuc e'
