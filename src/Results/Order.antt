-- ===== src/Results/Order.antt =====
-- Domination is a strict order.
use bit_bench.Prelude.{◌≡◌, inl, inr, true, false, arith, Bool-cases}
use bit_bench.Results.{Ordered, Point, dominates}

module _ {Num : Type 0} ⦃o : Ordered Num⦄ where
  pub dominates_irrefl : (a : Point Num) → dominates a a ≡ false
  unfolding dominates
  dominates_irrefl a = ground (arith, o.lt_irrefl a.ratio, o.lt_irrefl a.throughput)

  -- The strict order is asymmetric, and composes with the order that allows equality.
  pub lt_asymm : (a b : Num) → o.lt a b ≡ true → o.lt b a ≡ false
  lt_asymm a b h = elim (Bool-cases (o.lt b a)) [
    | inl e ↦ cc (o.lt_irrefl a, o.lt_trans a b a h e)
    | inr e ↦ e
  ]

  pub not_lt_trans : (a b c : Num) → o.lt b a ≡ false → o.lt c b ≡ false → o.lt c a ≡ false
  not_lt_trans a b c p q = elim (Bool-cases (o.lt c a)) [
    | inl e ↦ elim (Bool-cases (o.lt a b)) [
      | inl l ↦ cc (q, o.lt_trans c a b e l)
      | inr n ↦ cc (q, (let same : a ≡ b = o.lt_connected a b n p in rw same at e))
    ]
    | inr e ↦ e
  ]

  lt_le_trans : (a b c : Num) → o.lt a b ≡ true → o.lt c b ≡ false → o.lt a c ≡ true
  lt_le_trans a b c h n = elim (Bool-cases (o.lt a c)) [
    | inl e ↦ e
    | inr e ↦ cc (h, not_lt_trans b c a n e)
  ]

  le_lt_trans : (a b c : Num) → o.lt b a ≡ false → o.lt b c ≡ true → o.lt a c ≡ true
  le_lt_trans a b c n h = elim (Bool-cases (o.lt a c)) [
    | inl e ↦ e
    | inr e ↦ cc (h, not_lt_trans c a b e n)
  ]

  -- If one point dominates another and that a third, the first dominates the third.
  pub dominates_trans :
      (a b c : Point Num) → dominates a b ≡ true → dominates b c ≡ true → dominates a c ≡ true
  unfolding dominates
  dominates_trans a b c p q = ground (
    arith,
    not_lt_trans a.ratio b.ratio c.ratio,
    not_lt_trans c.throughput b.throughput a.throughput,
    lt_le_trans a.ratio b.ratio c.ratio,
    le_lt_trans c.throughput b.throughput a.throughput,
  )
