-- ===== src/Compare/Keys.antt =====
-- Which metrics the comparison shows, and in which order.
use bit_bench.Prelude.{
  ◌≡◌, refl, sym, ap, subst, ◌↔◌, ◌⊎◌, inl, inr, List, [], ◌∷◌, ◌++◌, true, false, Str, has,
  has_iff, map, sort, In, In-sort, AllDistinct, IsSorted, sort-IsSorted, sort-AllDistinct, arith,
  Bool-cases,
}
use bit_bench.Objects.{keys}
use bit_bench.Selection.{append-AllDistinct}
use bit_bench.Results.{BenchmarkResult}
use bit_bench.Metrics.Formats.{metric_label}
use bit_bench.Compare.{
  MetricDef, excluded_metrics, add_once, add_keys, metric_keys, key_before, get_metric_defs,
}

In-append_last : (k j : Str) (set : List Str) → In k (set ++ j ∷ []) ↔ (In k set ⊎ (k ≡ j))
In-append_last k j [] = ground arith
In-append_last k j (i ∷ set) = ground (arith, In-append_last k j set)

In-add_once : (k j : Str) (set : List Str) → In k (add_once j set) ↔ (In k set ⊎ (k ≡ j))
unfolding add_once
In-add_once k j set = elim (Bool-cases (has j set)) [
  | inl e ↦
      let there = (has_iff j set).0 e in
      rw e (
        (λ m. inl m),
        (λ h. elim h [ inl m ↦ m | inr same ↦ subst (λ z. In z set) (sym same) there ]),
      )
  | inr e ↦ rw e (In-append_last k j set)
]

add_once-AllDistinct : (j : Str) (set : List Str) → AllDistinct set → AllDistinct (add_once j set)
unfolding add_once
add_once-AllDistinct j set h = elim (Bool-cases (has j set)) [
  | inl e ↦ rw e h
  | inr e ↦ rw e (append-AllDistinct j set (λ m. cc (e, (has_iff j set).1 m)) h)
]

-- The key is that of a metric which is shown.
abbrev pub IsShown : Str → Type 0
IsShown k = has k excluded_metrics ≡ false

In-add_keys :
    (k : Str) (set ks : List Str) → In k (add_keys set ks) ↔ (In k set ⊎ (In k ks × IsShown k))
unfolding add_keys
In-add_keys k set [] = ground arith
In-add_keys k set (j ∷ ks) = elim (Bool-cases (has j excluded_metrics)) [
  | inl e ↦
      let ih = In-add_keys k set ks in
      rw e (
        (λ m. elim (ih.0 m) [ inl l ↦ inl l | inr r ↦ inr (inr r.0, r.1) ]),
        (λ h. ih.1 (elim h [
          | inl l ↦ inl l
          | inr r ↦ elim r.0 [
            | inl same ↦ absurd (cc (e, same, r.1))
            | inr later ↦ inr (later, r.1)
          ]
        ])),
      )
  | inr e ↦
      let ih = In-add_keys k (add_once j set) ks in
      let once = In-add_once k j set in
      rw e (
        (λ m. elim (ih.0 m) [
          | inl l ↦ elim (once.0 l) [
            | inl old ↦ inl old
            | inr same ↦ inr (inl same, subst (λ z. IsShown z) (sym same) e)
          ]
          | inr r ↦ inr (inr r.0, r.1)
        ]),
        (λ h. ih.1 (elim h [
          | inl l ↦ inl (once.1 (inl l))
          | inr r ↦ elim r.0 [ inl same ↦ inl (once.1 (inr same)) | inr later ↦ inr (later, r.1) ]
        ])),
      )
]

add_keys-AllDistinct : (set ks : List Str) → AllDistinct set → AllDistinct (add_keys set ks)
unfolding add_keys
add_keys-AllDistinct set [] h = h
add_keys-AllDistinct set (j ∷ ks) h = elim (Bool-cases (has j excluded_metrics)) [
  | inl e ↦ rw e (add_keys-AllDistinct set ks h)
  | inr e ↦ rw e (add_keys-AllDistinct (add_once j set) ks (add_once-AllDistinct j set h))
]

-- The keys of the metrics that are shown.
abbrev pub keys_of : List MetricDef → List Str
keys_of defs = map (λ d. d.key) defs

keys_of-labels :
    (f : Str → Str) (ks : List Str) → keys_of (map (λ k. record { key = k; label = f k }) ks) ≡ ks
keys_of-labels f [] = refl
keys_of-labels f (k ∷ ks) = ap (λ l. k ∷ l) (keys_of-labels f ks)

key_before_asymm : (a b : Str) → key_before a b ≡ true → key_before b a ≡ false
unfolding key_before
key_before_asymm a b h = ground (arith, h)

key_before_trans :
    (a b c : Str) → key_before b a ≡ false → key_before c b ≡ false → key_before c a ≡ false
unfolding key_before
key_before_trans a b c p q = ground (arith, p, q)

module _ {Num : Type 0} where
  -- Some result has a number for the key.
  abbrev pub HasNumber : Str → List (BenchmarkResult Num) → Type 0
  HasNumber k [] = ⊥
  HasNumber k (r ∷ results) = In k (keys r.metrics) ⊎ HasNumber k results

  In-metric_keys :
      (k : Str) (set : List Str) (results : List (BenchmarkResult Num))
      → In k (metric_keys set results) ↔ (In k set ⊎ (HasNumber k results × IsShown k))
  unfolding metric_keys
  In-metric_keys k set [] = ground arith
  In-metric_keys k set (r ∷ results) = ground (
    arith,
    In-metric_keys k (add_keys set (keys r.metrics)) results,
    In-add_keys k set (keys r.metrics),
  )

  metric_keys-AllDistinct :
      (set : List Str) (results : List (BenchmarkResult Num))
      → AllDistinct set
      → AllDistinct (metric_keys set results)
  unfolding metric_keys
  metric_keys-AllDistinct set [] h = h
  metric_keys-AllDistinct set (r ∷ results) h =
      metric_keys-AllDistinct (add_keys set (keys r.metrics)) results
        (add_keys-AllDistinct set (keys r.metrics) h)

  -- The keys are those of the numbers that are shown, each once, in order.
  abbrev pub IsListing : List (BenchmarkResult Num) → List Str → Type 0
  IsListing results shown =
      ((k : Str) → In k shown ↔ (HasNumber k results × IsShown k))
      × AllDistinct shown
      × IsSorted key_before shown

  -- The comparison shows a metric exactly when some result has a number for its key and the key is
  -- not an excluded one; it shows none twice, and the fixed order is kept.
  pub get_metric_defs_lem :
      (results : List (BenchmarkResult Num)) → IsListing results (keys_of (get_metric_defs results))
  unfolding get_metric_defs
  get_metric_defs_lem results =
      let found = metric_keys [] results in
      let keys_are : keys_of (get_metric_defs results) ≡ sort key_before found =
        keys_of-labels metric_label (sort key_before found) in
      subst (IsListing results) (sym keys_are) (
        (λ k.
            let sorted = In-sort key_before k found in
            let listed = In-metric_keys k [] results in
            (
              (λ m. elim (listed.0 (sorted.0 m)) [
                | inl none_there ↦ elim none_there [ ]
                | inr h ↦ h
              ]),
              (λ h. sorted.1 (listed.1 (inr h))),
            )),
        sort-AllDistinct key_before found (metric_keys-AllDistinct [] results tt),
        sort-IsSorted key_before key_before_asymm key_before_trans found,
      )
