-- ===== src/Prelude/Pigeonhole.antt =====
-- Distinct texts of a list are no more than its elements.
use mathlib.Core.Path.{◌≡◌, refl, ap, sym}
use mathlib.Core.Logic.{◌≢◌, inl, inr}
use mathlib.Core.List.{List, [], ◌∷◌, ◌++◌}
use Prim.Native.Nat.{◌≤◌}
use native.Mathlib.Omega.{arith}
use bit_bench.Prelude.Lists.{In, AllDistinct, length, length-append}
use bit_bench.Prelude.Text.{Str}

In-split :
    (x : Str) (ys : List Str)
    → In x ys
    → (before : List Str) × (after : List Str) × (ys ≡ before ++ x ∷ after)
In-split x [] m = absurd m
In-split x (y ∷ ys) (inl e) = ([], ys, ap (λ z. z ∷ ys) (sym e))
In-split x (y ∷ ys) (inr m) =
    let (before, after, e) = In-split x ys m in (y ∷ before, after, ap (y ∷◌) e)

In-without :
    (x a : Str) (before after : List Str)
    → a ≢ x
    → In a (before ++ x ∷ after)
    → In a (before ++ after)
In-without x a [] after ne (inl e) = absurd (ne e)
In-without x a [] after ne (inr m) = m
In-without x a (b ∷ before) after ne (inl e) = inl e
In-without x a (b ∷ before) after ne (inr m) = inr (In-without x a before after ne m)

-- Distinct texts of a list are no more than its elements.
pub pigeonhole :
    (xs ys : List Str) → AllDistinct xs → ((a : Str) → In a xs → In a ys) → length xs ≤ length ys
pigeonhole [] ys d f = omega arith
pigeonhole (x ∷ xs) ys (new, d) f =
    let (before, after, e) = In-split x ys (f x (inl refl)) in
    let ih = pigeonhole xs (before ++ after) d (λ a m.
      In-without x a before after (λ same. new (rw (sym same) m)) (rw (sym e) (f a (inr m)))) in
    omega (arith, ap length e, length-append before (x ∷ after), length-append before after)
