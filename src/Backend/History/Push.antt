-- ===== src/Backend/History/Push.antt =====
-- What the use of a configuration does to the rows of its user.
use bit_bench.Prelude.{
  ℕ, ◌<◌, ◌≡◌, ◌≢◌, refl, ap, subst, inl, inr, List, [], ◌∷◌, Bool, true, false, not, Bool-cases,
  Str, str_eq, str_eq_iff, map, keep, sort, insert, any, ltb, All, arith,
}
use bit_bench.Prelude.Ordered.{Distinguished, All-sort, insert_first, keep-sort}
use bit_bench.Backend.History.{
  UsedInstance, ConfigHistory, of_user, is_later, is_conflict, refresh, fingerprint_config,
  upsert_history,
}
use bit_bench.Backend.History.Order.{not_self, differs, in_front, later_asymm, later_trans}
use bit_bench.Backend.History.Steps.{is_conflict_different, is_conflict_own}

module _ {Options : Type 0} where
  refresh_none :
      (u f : Str) (now : ℕ) (rows : List (ConfigHistory Options))
      → All (λ r. r.fingerprint ≢ f) rows
      → refresh u f now rows ≡ rows
  unfolding refresh
  refresh_none u f now [] h = refl
  refresh_none u f now (r ∷ rows) (ne, h) =
      rw (is_conflict_different u f r ne, refresh_none u f now rows h) refl

  abbrev pub other_config : Str → ConfigHistory Options → Bool
  other_config f r = not (str_eq r.fingerprint f)

  keep-other_config :
      (f : Str) (rows : List (ConfigHistory Options))
      → All (λ r. r.fingerprint ≢ f) rows
      → keep (other_config f) rows ≡ rows
  keep-other_config f [] h = refl
  keep-other_config f (r ∷ rows) (ne, h) =
      rw (not_self r.fingerprint f ne, keep-other_config f rows h) refl

  before_now :
      (now : ℕ) (rows : List (ConfigHistory Options))
      → All (λ r. r.last_used_at < now) rows
      → All (λ r. ltb now r.last_used_at ≡ false) rows
  before_now now [] h = tt
  before_now now (r ∷ rows) (lt, h) = (ground arith, before_now now rows h)

  is_later_than :
      (q r : ConfigHistory Options) → r.last_used_at < q.last_used_at → is_later q r ≡ true
  unfolding is_later
  is_later_than q r h = ground arith

  -- The row that was refreshed comes in front, the others behind it, each before it.
  abbrev IsPushed : Str → ℕ → List (ConfigHistory Options) → List (ConfigHistory Options) → Type 0
  IsPushed f now rows after =
      (r : ConfigHistory Options) × (r.fingerprint ≡ f)
      × (r.last_used_at ≡ now)
      × (sort is_later after ≡ r ∷ sort is_later (keep (other_config f) rows))

  sort-refresh :
      (u f : Str) (now : ℕ) (rows : List (ConfigHistory Options))
      → All (λ r. of_user u r ≡ true) rows
      → All (λ r. r.last_used_at < now) rows
      → Distinguished (λ r. r.fingerprint) rows
      → any (is_conflict u f) rows ≡ true
      → IsPushed f now rows (refresh u f now rows)
  unfolding refresh sort is_later
  sort-refresh u f now [] own before d found = cc
  sort-refresh u f now (r ∷ rows) (mine, own) (lt, before) (new, d) found =
      elim (Bool-cases (str_eq r.fingerprint f)) [
        | inl e ↦
            let same : r.fingerprint ≡ f = (str_eq_iff r.fingerprint f).0 e in
            let others : All (λ s. s.fingerprint ≢ f) rows =
              subst (λ g. All (λ s. s.fingerprint ≢ g) rows) same new in
            let moved = record r { last_used_at = now } in
            (
              moved,
              same,
              refl,
              rw
                  (
                    is_conflict_own u f r mine,
                    e,
                    refresh_none u f now rows others,
                    keep-other_config f rows others,
                  )
                  (insert_first is_later moved (sort is_later rows)
                    (All-sort is_later _ rows (before_now now rows before))),
            )
        | inr e ↦
            let (q, qf, qt, h) =
              sort-refresh u f now rows own before d
                (rw (is_conflict_own u f r mine, e) at found) in
            let later : is_later q r ≡ true = is_later_than q r (omega arith) in
            (q, qf, qt, rw (is_conflict_own u f r mine, e, h) (rw (later, insert) refl))
      ]

  pub All-differ :
      (u f : Str) (rows : List (ConfigHistory Options))
      → All (λ r. of_user u r ≡ true) rows
      → any (is_conflict u f) rows ≡ false
      → All (λ r. r.fingerprint ≢ f) rows
  All-differ u f [] own h = tt
  All-differ u f (r ∷ rows) (mine, own) h = elim (Bool-cases (str_eq r.fingerprint f)) [
    | inl e ↦ absurd (cc (let c : true ≡ false = rw (is_conflict_own u f r mine, e) at h in c))
    | inr e ↦ (
      differs r.fingerprint f e,
      All-differ u f rows own (rw (is_conflict_own u f r mine, e) at h),
    )
  ]

  map-fingerprint :
      (f : Str) (rows : List (ConfigHistory Options))
      → map (λ r. r.fingerprint) (keep (other_config f) rows)
        ≡ keep (λ g. not (str_eq g f)) (map (λ r. r.fingerprint) rows)
  map-fingerprint f [] = refl
  map-fingerprint f (r ∷ rows) = elim (Bool-cases (str_eq r.fingerprint f)) [
    | inl e ↦ rw e (map-fingerprint f rows)
    | inr e ↦ rw e (ap (r.fingerprint ∷◌) (map-fingerprint f rows))
  ]

  module _ (hash : List (Str × Options) → Str) where
    sort-upsert_history :
        (id u : Str) (now : ℕ) (instances : List (UsedInstance Options))
        (rows : List (ConfigHistory Options))
        → All (λ r. of_user u r ≡ true) rows
        → All (λ r. r.last_used_at < now) rows
        → Distinguished (λ r. r.fingerprint) rows
        → IsPushed
            (fingerprint_config hash instances)
            now
            rows
            (upsert_history hash id now u instances rows)
    unfolding upsert_history sort is_later
    sort-upsert_history id u now instances rows own before d =
        let f = fingerprint_config hash instances in
        elim (Bool-cases (any (is_conflict u f) rows)) [
          | inl e ↦ rw e (sort-refresh u f now rows own before d e)
          | inr e ↦
              rw (e, keep-other_config f rows (All-differ u f rows own e))
                (
                  _,
                  refl,
                  refl,
                  insert_first is_later _ (sort is_later rows)
                      (All-sort is_later _ rows (before_now now rows before)),
                )
        ]

    -- A use puts its fingerprint in front of the user's others.
    pub sort-upsert_history-in_front :
        (id u : Str) (now : ℕ) (instances : List (UsedInstance Options))
        (rows : List (ConfigHistory Options))
        → All (λ r. of_user u r ≡ true) rows
        → All (λ r. r.last_used_at < now) rows
        → Distinguished (λ r. r.fingerprint) rows
        → map (λ r. r.fingerprint) (sort is_later (upsert_history hash id now u instances rows))
          ≡ in_front
              (fingerprint_config hash instances)
              (map (λ r. r.fingerprint) (sort is_later rows))
    sort-upsert_history-in_front id u now instances rows own before d =
        let f = fingerprint_config hash instances in
        let (r, same, _, h) = sort-upsert_history id u now instances rows own before d in
        rw (h, same, ← keep-sort is_later later_asymm later_trans (other_config f) rows)
          (ap (f ∷◌) (map-fingerprint f (sort is_later rows)))
