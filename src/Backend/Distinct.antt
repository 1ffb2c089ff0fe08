-- ===== src/Backend/Distinct.antt =====
-- The labels of the instances that the server stores for one benchmark.
use bit_bench.Prelude.{
  ◌≡◌, refl, inl, inr, List, [], ◌∷◌, Bool, true, false, ap, sym, ◌∙◌, subst, Bool-cases,
  Option-cases, if◌then◌else◌, Str, str_eq, map, All, In, AllDistinct, ◌≤◌, ◌+◌, ◌<◌, suc, length,
  ltb, leb, ◌==◌, arith, length-take, ltb→le, sort, str_lt, join, ◌++◌, leb→le, ℕ,
}
use bit_bench.Objects.{keys}
use bit_bench.Options.{Numeric}
use bit_bench.Backend.Strings.{trim_space, go_lower}
use bit_bench.Backend.{Result, ok, error, ServerSchema, ServerValues, canonicalize_options}
use bit_bench.Backend.Naming.{
  truncate_label, server_build_label, server_label_parts, label_separator, with_unique_label,
}
use bit_bench.Backend.Coercion.{>>=-eq-ok, error-ne-ok}
use bit_bench.Backend.Unique.{with_unique_label_lem}
use bit_bench.Backend.Resolve.{
  Instance, Found, ResolvedInstance, Seen, Server, ResolveError, labelled, remember,
  find_compressor, canonicalized, resolve_named, resolve_one, resolve_from, resolve_instances,
}

length-truncate_label : (label : Str) → length (truncate_label label) ≤ 64
unfolding truncate_label
length-truncate_label label = elim (Bool-cases (leb (length label) 64)) [
  | inl e ↦ rw e (leb→le (length label) 64 e)
  | inr e ↦ rw e (omega (arith, length-take 64 label))
]

-- The value of a result, or another one.
abbrev value_or : {A : Type 0} → A → Result ResolveError A → A
value_or d (ok a) = a
value_or d (error e) = d

abbrev label_of : {Num : Type 0} → Seen × ResolvedInstance Num → Str
label_of (seen, r) = r.label

abbrev taken_of : {Num : Type 0} → Seen × ResolvedInstance Num → List Str
taken_of (seen, r) = seen.taken_labels

-- The labels of resolved instances.
abbrev pub labels : {Num : Type 0} → List (ResolvedInstance Num) → List Str
labels rs = map (λ r. r.label) rs

absent_label :
    (l : Str) (ls taken : List Str)
    → All (λ x. (length x ≤ 64) × (¬ (In x (l ∷ taken)))) ls
    → ¬ (In l ls)
absent_label l [] taken h m = m
absent_label l (x ∷ ls) taken ((_, new), h) (inl e) = new (inl (sym e))
absent_label l (x ∷ ls) taken (_, h) (inr m) = absent_label l ls taken h m

forget :
    (l : Str) (ls taken : List Str)
    → All (λ x. (length x ≤ 64) × (¬ (In x (l ∷ taken)))) ls
    → All (λ x. (length x ≤ 64) × (¬ (In x taken))) ls
forget l [] taken h = tt
forget l (x ∷ ls) taken ((fits, new), h) = ((fits, (λ m. new (inr m))), forget l ls taken h)

not_zero : (a : ℕ) → (a == 0) ≡ false → 0 < a
not_zero a h = ground arith

weaken :
    (ls taken : List Str)
    → All (λ x. (length x ≤ 64) × (¬ (In x taken))) ls
    → All (λ x. length x ≤ 64) ls
weaken [] taken h = tt
weaken (x ∷ ls) taken ((fits, _), h) = (fits, weaken ls taken h)

module _ {Num : Type 0} ⦃n : Numeric Num⦄ (s : Server Num n) where
  length-server_build_label :
      (name : Str) (schema : ServerSchema Num) (values : ServerValues Num)
      → length (server_build_label s.numbers name schema values) ≤ 64
  unfolding server_build_label
  length-server_build_label name schema values =
      let parts = server_label_parts s.numbers (sort str_lt (keys schema)) schema values in
      length-truncate_label (
        if ltb 0 (length parts)
        then name ++ label_separator ++ join label_separator parts
        else name)

  guarded :
      (b : Bool) (e : ResolveError) (seen seen' : Seen)
      → (if b then error e else ok seen) ≡ ok seen'
      → seen ≡ seen'
  guarded true e seen seen' h = absurd (error-ne-ok e seen' h)
  guarded false e seen seen' h = ap (value_or seen) h

  remember-taken_labels :
      (name : Str) (found : Found Num) (values : ServerValues Num) (seen seen' : Seen)
      → remember s name found values seen ≡ ok seen'
      → seen.taken_labels ≡ seen'.taken_labels
  unfolding remember
  remember-taken_labels name found values seen seen' h = elim (Option-cases found.spec) [
    | inl e ↦ ap (λ q. q.taken_labels) (guarded _ _ _ seen' (rw e at h))
    | inr (p, e) ↦ ap (λ q. q.taken_labels) (guarded _ _ _ seen' (rw e at h))
  ]

  -- What one round adds: a label of at most 64 bytes that was not taken.
  abbrev Adds : Seen → Seen → ResolvedInstance Num → Type 0
  Adds seen seen' r =
      (seen'.taken_labels ≡ r.label ∷ seen.taken_labels)
      × (¬ (In r.label seen.taken_labels))
      × (length r.label ≤ 64)

  labelled-Adds :
      (name : Str) (found : Found Num) (values : ServerValues Num) (seen seen' : Seen)
      (r : ResolvedInstance Num) (label : Str)
      → length label ≤ 64
      → length seen.taken_labels ≤ 64
      → labelled s name found values seen (with_unique_label label seen.taken_labels)
        ≡ ok (seen', r)
      → Adds seen seen' r
  unfolding labelled
  labelled-Adds name found values seen seen' r label short few h =
      let (new, e, fresh, fits, _) = with_unique_label_lem label seen.taken_labels short few in
      let q = rw e at h in
      let own : r.label ≡ new = sym (ap (λ x. label_of (value_or (seen', r) x)) q) in
      let grown : seen'.taken_labels ≡ new ∷ seen.taken_labels =
        sym (ap (λ x. taken_of (value_or (seen', r) x)) q) in
      rw own (grown, fresh, fits)

  resolve_one-Adds :
      (inst : Instance Num) (seen seen' : Seen) (r : ResolvedInstance Num)
      → length seen.taken_labels ≤ 64
      → resolve_one s inst seen ≡ ok (seen', r)
      → Adds seen seen' r
  unfolding resolve_one resolve_named
  resolve_one-Adds inst seen seen' r few h =
      let name = go_lower s.lower (trim_space inst.name) in
      elim (Bool-cases (str_eq name [])) [
        | inl e ↦ absurd (error-ne-ok _ (seen', r) (rw e at h))
        | inr e ↦
            let (found, _, h1) = >>=-eq-ok (find_compressor s name) _ (seen', r) (rw e at h) in
            let (values, _, h2) =
              >>=-eq-ok
                (canonicalized s name (canonicalize_options s.numbers found.schema inst.options)) _
                (seen', r) h1 in
            let (kept, k, h3) = >>=-eq-ok (remember s name found values seen) _ (seen', r) h2 in
            let same = remember-taken_labels name found values seen kept k in
            let (grown, fresh, fits) =
              labelled-Adds name found values kept seen' r
                (server_build_label s.numbers name found.schema values)
                (length-server_build_label name found.schema values)
                (subst (λ l. length l ≤ 64) same few) h3 in
            (
              grown ∙ ap (λ l. r.label ∷ l) (sym same),
              subst (λ l. ¬ (In r.label l)) (sym same) fresh,
              fits,
            )
      ]

  resolve_from-labels :
      (insts : List (Instance Num)) (seen : Seen) (rs : List (ResolvedInstance Num))
      → length seen.taken_labels + length insts ≤ 64
      → resolve_from s seen insts ≡ ok rs
      → (length rs ≡ length insts)
        × AllDistinct (labels rs)
        × All (λ l. (length l ≤ 64) × (¬ (In l seen.taken_labels))) (labels rs)
  unfolding resolve_from
  resolve_from-labels [] seen rs few h = rw (ap (value_or rs) (sym h)) (refl, tt, tt)
  resolve_from-labels (inst ∷ insts) seen rs few h =
      let ((seen', r), one, h1) = >>=-eq-ok (resolve_one s inst seen) _ rs h in
      let (more, rest, h2) = >>=-eq-ok (resolve_from s seen' insts) _ rs h1 in
      let (grown, fresh, fits) = resolve_one-Adds inst seen seen' r (omega arith) one in
      let (count, distinct, ih) =
        resolve_from-labels insts seen' more (omega (arith, ap length grown)) rest in
      let later : All (λ l. (length l ≤ 64) × (¬ (In l (r.label ∷ seen.taken_labels))))
          (labels more) =
        subst (λ t. All (λ l. (length l ≤ 64) × (¬ (In l t))) (labels more)) grown ih in
      rw (ap (value_or rs) (sym h2)) (
        ap suc count,
        (absent_label r.label (labels more) _ later, distinct),
        ((fits, fresh), forget r.label (labels more) _ later),
      )

  -- Where the server resolves a request, it stores one instance for each of the request, of which
  -- there are 1 to 64; their labels are all different, and each has at most 64 bytes.
  pub resolve_instances-labels :
      (insts : List (Instance Num)) (rs : List (ResolvedInstance Num))
      → resolve_instances s insts ≡ ok rs
      → (length rs ≡ length insts)
        × (0 < length insts)
        × (length insts ≤ 64)
        × AllDistinct (labels rs)
        × All (λ l. length l ≤ 64) (labels rs)
  unfolding resolve_instances
  resolve_instances-labels insts rs h = elim (Bool-cases (length insts == 0)) [
    | inl e ↦ absurd (error-ne-ok _ rs (rw e at h))
    | inr e ↦ elim (Bool-cases (ltb 64 (length insts))) [
      | inl l ↦ absurd (error-ne-ok _ rs (rw (e, l) at h))
      | inr l ↦
          let few = ltb→le 64 (length insts) l in
          let (count, distinct, fits) =
            resolve_from-labels insts
              (record { taken_labels = []; seen_builtin = []; seen_custom = [] }) rs (omega arith)
              (rw (e, l) at h) in
          (count, not_zero (length insts) e, few, distinct, weaken (labels rs) [] fits)
    ]
  ]
