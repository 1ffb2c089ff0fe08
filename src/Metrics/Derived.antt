-- ===== src/Metrics/Derived.antt =====
-- What deriving metrics changes.
use bit_bench.Prelude.{
  ◌≡◌, refl, ap, ap₂, ◌∙◌, Option, none, some, [], ◌∷◌, Bool, true, false, Str, codes, str_eq,
  str_eq_iff, if◌then◌else◌, arith,
}
use bit_bench.Objects.{Object, get}
use bit_bench.Objects.Laws.{get-put}
use bit_bench.Results.{Ordered, BenchmarkResult, metric_of}
use bit_bench.Metrics.{
  Arithmetic, remove, assign, derive, bits_per_element, uncompressed_bits_per_element,
  bits_over_values,
}

get-remove :
    {A : Type 0} (k j : Str) (o : Object A)
    → get k (remove j o) ≡ (if str_eq k j then none else get k o)
unfolding get remove
get-remove k j [] = ground arith
get-remove k j ((i, v) ∷ o) =
    ground (arith, get-remove k j o, str_eq_iff k j, str_eq_iff j i, str_eq_iff k i)

get-assign :
    {A : Type 0} (k j : Str) (v : Option A) (o : Object A)
    → get k (assign j v o) ≡ (if str_eq k j then v else get k o)
unfolding assign
get-assign k j none o = get-remove k j o
get-assign k j (some v) o = get-put k j v o

module _ {Num : Type 0} ⦃o : Ordered Num⦄ (a : Arithmetic Num) where
  -- Deriving sets the two derived metrics, whatever they were, and changes no other.
  pub metric_of-derive :
      (k : Str) (r : BenchmarkResult Num)
      → metric_of k (derive a r) ≡ (
          if str_eq k (codes "uncompressed_bits_per_element")
          then uncompressed_bits_per_element a r
          else (if str_eq k (codes "bits_per_element")
              then bits_per_element a r
              else metric_of k r))
  unfolding derive metric_of
  metric_of-derive k r =
      get-assign k (codes "uncompressed_bits_per_element") (uncompressed_bits_per_element a r)
        (assign (codes "bits_per_element") (bits_per_element a r) r.metrics)
      ∙ ap
          (λ (v : Option Num).
            if str_eq k (codes "uncompressed_bits_per_element")
            then uncompressed_bits_per_element a r
            else v)
          (get-assign k (codes "bits_per_element") (bits_per_element a r) r.metrics)

  raw_metric :
      (k : Str) (r : BenchmarkResult Num)
      → str_eq k (codes "uncompressed_bits_per_element") ≡ false
      → str_eq k (codes "bits_per_element") ≡ false
      → metric_of k (derive a r) ≡ metric_of k r
  raw_metric k r p q = metric_of-derive k r ∙ rw (p, q) refl

  bits_per_element-derive :
      (r : BenchmarkResult Num) → bits_per_element a (derive a r) ≡ bits_per_element a r
  unfolding bits_per_element str_eq
  bits_per_element-derive r =
      ap₂ (bits_over_values a) (raw_metric (codes "compressed_bits") r refl refl)
        (raw_metric (codes "num_values") r refl refl)

  uncompressed_bits_per_element-derive :
      (r : BenchmarkResult Num)
      → uncompressed_bits_per_element a (derive a r) ≡ uncompressed_bits_per_element a r
  unfolding uncompressed_bits_per_element str_eq
  uncompressed_bits_per_element-derive r =
      ap₂ (bits_over_values a) (raw_metric (codes "uncompressed_bits") r refl refl)
        (raw_metric (codes "num_values") r refl refl)

  -- Deriving the metrics of a result that has them already changes none.
  pub derive_idempotent :
      (k : Str) (r : BenchmarkResult Num)
      → metric_of k (derive a (derive a r)) ≡ metric_of k (derive a r)
  derive_idempotent k r =
      metric_of-derive k (derive a r)
      ∙ rw (bits_per_element-derive r, uncompressed_bits_per_element-derive r, metric_of-derive k r)
          (overwritten (str_eq k (codes "uncompressed_bits_per_element"))
            (str_eq k (codes "bits_per_element")) _ _ _)
    where
      overwritten :
          (p q : Bool) (u b v : Option Num)
          → (if p then u else (if q then b else (if p then u else (if q then b else v))))
            ≡ (if p then u else (if q then b else v))
      overwritten true q u b v = refl
      overwritten false true u b v = refl
      overwritten false false u b v = refl
