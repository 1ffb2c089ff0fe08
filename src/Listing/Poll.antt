-- ===== src/Listing/Poll.antt =====
-- A round of polling against what each answer says of its benchmark.
use bit_bench.Prelude.{
  ◌≡◌, refl, sym, ap₂, subst, ◌∙◌, inl, inr, Option, none, some, List, [], ◌∷◌, false, not, Str,
  str_eq, str_eq_iff, str_eq_refl, has, keep, map, if◌then◌else◌, Bool-cases, arith,
}
use bit_bench.Api.{Settled, resolved, rejected}
use bit_bench.Listing.{
  Benchmark, Progress, ResultsState, is_active, or_else, new_status, update_benchmark, has_news,
  told, poll_one, poll_all, poll,
}

new_status_idempotent :
    (status : Option Str) (old : Str)
    → new_status status (new_status status old) ≡ new_status status old
unfolding new_status
new_status_idempotent none old = refl
new_status_idempotent (some status) old = ground (arith, str_eq_refl status)

or_else_idempotent : {A : Type 0} (a b : Option A) → or_else a (or_else a b) ≡ or_else a b
unfolding or_else
or_else_idempotent none b = refl
or_else_idempotent (some a) b = refl

told-id : (answer : Settled Progress) (b : Benchmark) → (told answer b).id ≡ b.id
unfolding told update_benchmark
told-id (resolved none) b = refl
told-id (rejected message) b = refl
told-id (resolved (some news)) b = elim (Bool-cases (has_news news)) [
  | inl e ↦ rw e refl
  | inr e ↦ rw e refl
]

told_idempotent :
    (answer : Settled Progress) (b : Benchmark) → told answer (told answer b) ≡ told answer b
unfolding told update_benchmark
told_idempotent (resolved none) b = refl
told_idempotent (rejected message) b = refl
told_idempotent (resolved (some news)) b = elim (Bool-cases (has_news news)) [
  | inl e ↦
      rw
        (e, new_status_idempotent news.status b.status, or_else_idempotent news.progress b.progress)
        refl
  | inr e ↦ rw e refl
]

map_id : {A : Type 0} (f : A → A) → ((a : A) → f a ≡ a) → (xs : List A) → map f xs ≡ xs
map_id f h [] = refl
map_id f h (x ∷ xs) = ap₂ (λ y ys. y ∷ ys) (h x) (map_id f h xs)

map-map :
    {A : Type 0} (f g k : A → A)
    → ((a : A) → f (g a) ≡ k a)
    → (xs : List A) → map f (map g xs) ≡ map k xs
map-map f g k h [] = refl
map-map f g k h (x ∷ xs) = ap₂ (λ y ys. y ∷ ys) (h x) (map-map f g k h xs)

-- The identifiers of benchmarks.
abbrev pub ids_of : List Benchmark → List Str
ids_of benchmarks = map (λ b. b.id) benchmarks

module _ (answer : Str → Settled Progress) where
  -- What a round makes of one benchmark: the answer about it is followed if it is polled.
  unfoldable pub followed : List Str → Benchmark → Benchmark
  followed ids b = if has b.id ids then told (answer b.id) b else b

  followed_fixed :
      (ids : List Str) (b : Benchmark) (id : Str)
      → b.id ≡ id
      → told (answer id) b ≡ b
      → followed ids b ≡ b
  unfolding followed
  followed_fixed ids b id same_id h = elim (Bool-cases (has b.id ids)) [
    | inl e ↦ rw e (subst (λ i. told (answer i) b ≡ b) (sym same_id) h)
    | inr e ↦ rw e refl
  ]

  followed-told :
      (ids : List Str) (b : Benchmark) → followed ids (told (answer b.id) b) ≡ told (answer b.id) b
  followed-told ids b =
      followed_fixed ids (told (answer b.id) b) b.id (told-id (answer b.id) b)
        (told_idempotent (answer b.id) b)

  followed_first : (ids : List Str) (b : Benchmark) → followed (b.id ∷ ids) b ≡ told (answer b.id) b
  unfolding followed has
  followed_first ids b = rw (str_eq_refl b.id) refl

  followed_later :
      (id : Str) (ids : List Str) (b : Benchmark)
      → str_eq b.id id ≡ false
      → followed (id ∷ ids) b ≡ followed ids b
  unfolding followed has
  followed_later id ids b e = rw e refl

  followed_none : (b : Benchmark) → followed [] b ≡ b
  unfolding followed has
  followed_none b = refl

  followed-step :
      (id : Str) (ids : List Str) (b : Benchmark)
      → followed ids (if not (str_eq b.id id) then b else told (answer id) b)
        ≡ followed (id ∷ ids) b
  followed-step id ids b = elim (Bool-cases (str_eq b.id id)) [
    | inl e ↦
        let at : b.id ≡ id = (str_eq_iff b.id id).0 e in
        let there : followed (b.id ∷ ids) b ≡ told (answer b.id) b = followed_first ids b in
        rw e (
          subst (λ i. followed ids (told (answer i) b) ≡ followed (i ∷ ids) b) at
            (followed-told ids b ∙ sym there))
    | inr e ↦ rw e (sym (followed_later id ids b e))
  ]

  poll_all-followed :
      (active benchmarks : List Benchmark)
      → poll_all answer active benchmarks ≡ map (followed (ids_of active)) benchmarks
  unfolding poll_all poll_one
  poll_all-followed [] benchmarks = sym (map_id (followed []) (λ b. followed_none b) benchmarks)
  poll_all-followed (a ∷ active) benchmarks =
      poll_all-followed active (poll_one a.id (answer a.id) benchmarks)
      ∙ map-map (followed (ids_of active)) _ (followed (a.id ∷ ids_of active))
          (λ b. followed-step a.id (ids_of active) b) benchmarks

  -- A round of polling keeps the benchmarks in their order; each one that was active follows the
  -- answer about it, and no other changes.
  pub poll_lem :
      (s : ResultsState)
      → (poll answer s).benchmarks
        ≡ map (followed (ids_of (keep is_active s.benchmarks))) s.benchmarks
  unfolding poll
  poll_lem s = poll_all-followed (keep is_active s.benchmarks) s.benchmarks
