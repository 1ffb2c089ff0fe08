-- ===== src/Backend/History/Steps.antt =====
-- What one use of a configuration does to the history of each user.
use bit_bench.Prelude.{
  ℕ, ◌≡◌, ◌≢◌, refl, ap, sym, ◌∙◌, inl, inr, List, [], ◌∷◌, true, false, not, ◌&&◌, ◌||◌,
  Bool-cases, Str, str_eq, str_eq_iff, keep, take, sort, any, if◌then◌else◌,
}
use bit_bench.Prelude.Ordered.{Distinguished, keep-Distinguished, sort-Distinguished, keep-sort}
use bit_bench.Backend.History.{
  ConfigHistory, of_user, is_later, latest, is_listed, trim_history, is_conflict, refresh,
  history_keep,
}
use bit_bench.Backend.History.Order.{
  not_self, history_of, later_asymm, later_trans, keep-keep, keep-is_listed,
}

module _ {Options : Type 0} where
  -- Trimming.

  of_user-other :
      (u user : Str) (r : ConfigHistory Options)
      → user ≢ u
      → of_user u r ≡ true
      → of_user user r ≡ false
  unfolding of_user
  of_user-other u user r ne e =
      not_self r.user_id user λ same. ne (sym same ∙ (str_eq_iff r.user_id u).0 e)

  pub keep-trim_history_other :
      (u user : Str) (n : ℕ) (rows : List (ConfigHistory Options))
      → user ≢ u
      → keep (of_user u) (trim_history user n rows) ≡ keep (of_user u) rows
  unfolding trim_history
  keep-trim_history_other u user n rows ne =
      keep-keep _ _ rows λ r e. rw (of_user-other u user r ne e) refl

  pub keep-trimmed :
      (u : Str) (kept rows : List (ConfigHistory Options))
      → keep (of_user u) (keep (λ row. not (of_user u row && not (is_listed kept row))) rows)
        ≡ keep (is_listed kept) (keep (of_user u) rows)
  keep-trimmed u kept [] = refl
  keep-trimmed u kept (r ∷ rows) = elim (Bool-cases (of_user u r)) [
    | inl e ↦ elim (Bool-cases (is_listed kept r)) [
      | inl l ↦ rw (e, l) (rw (e, keep-trimmed u kept rows) refl)
      | inr l ↦ rw (e, l) (keep-trimmed u kept rows)
    ]
    | inr e ↦ rw e (rw e (keep-trimmed u kept rows))
  ]

  -- Trimming leaves a user the latest rows.
  pub history_of-trim_history :
      (u : Str) (rows : List (ConfigHistory Options))
      → Distinguished (λ r. r.id) rows
      → history_of u (trim_history u history_keep rows) ≡ take history_keep (history_of u rows)
  unfolding trim_history latest
  history_of-trim_history u rows h =
      let kept = take history_keep (history_of u rows) in
      let own = keep (of_user u) rows in
      ap (sort is_later) (keep-trimmed u kept rows)
      ∙ sym (keep-sort is_later later_asymm later_trans (is_listed kept) own)
      ∙ keep-is_listed history_keep (history_of u rows)
          (sort-Distinguished is_later (λ r. r.id) own (keep-Distinguished (λ r. r.id) _ rows h))

  -- Recording.

  is_conflict_other :
      (u f : Str) (r : ConfigHistory Options) → of_user u r ≡ false → is_conflict u f r ≡ false
  unfolding is_conflict
  is_conflict_other u f r e = rw e refl

  pub is_conflict_different :
      (u f : Str) (r : ConfigHistory Options) → r.fingerprint ≢ f → is_conflict u f r ≡ false
  unfolding is_conflict
  is_conflict_different u f r ne = elim (Bool-cases (of_user u r)) [
    | inl e ↦ rw (e, not_self r.fingerprint f ne) refl
    | inr e ↦ rw e refl
  ]

  pub is_conflict_own :
      (u f : Str) (r : ConfigHistory Options)
      → of_user u r ≡ true
      → is_conflict u f r ≡ str_eq r.fingerprint f
  unfolding is_conflict
  is_conflict_own u f r e = rw e refl

  -- A row that is refreshed, or not, stays with its user.
  of_user-refreshed :
      (u user f : Str) (now : ℕ) (r : ConfigHistory Options)
      → of_user u (if is_conflict user f r then record r { last_used_at = now } else r)
        ≡ of_user u r
  unfolding of_user
  of_user-refreshed u user f now r = elim (Bool-cases (is_conflict user f r)) [
    | inl e ↦ rw e refl
    | inr e ↦ rw e refl
  ]

  pub keep-refresh_other :
      (u user f : Str) (now : ℕ) (rows : List (ConfigHistory Options))
      → user ≢ u
      → keep (of_user u) (refresh user f now rows) ≡ keep (of_user u) rows
  unfolding refresh
  keep-refresh_other u user f now [] ne = refl
  keep-refresh_other u user f now (r ∷ rows) ne =
      rw (of_user-refreshed u user f now r, keep-refresh_other u user f now rows ne)
        (elim (Bool-cases (of_user u r)) [
          | inl e ↦ rw (e, is_conflict_other user f r (of_user-other u user r ne e)) refl
          | inr e ↦ rw e refl
        ])

  pub keep-refresh :
      (u f : Str) (now : ℕ) (rows : List (ConfigHistory Options))
      → keep (of_user u) (refresh u f now rows) ≡ refresh u f now (keep (of_user u) rows)
  unfolding refresh
  keep-refresh u f now [] = refl
  keep-refresh u f now (r ∷ rows) =
      rw (of_user-refreshed u u f now r, keep-refresh u f now rows)
        (elim (Bool-cases (of_user u r)) [ inl e ↦ rw e (rw e refl) | inr e ↦ rw e refl ])

  pub any-keep :
      (u f : Str) (rows : List (ConfigHistory Options))
      → any (is_conflict u f) (keep (of_user u) rows) ≡ any (is_conflict u f) rows
  any-keep u f [] = refl
  any-keep u f (r ∷ rows) = elim (Bool-cases (of_user u r)) [
    | inl e ↦ rw e (ap (is_conflict u f r ||◌) (any-keep u f rows))
    | inr e ↦ rw (e, is_conflict_other u f r e) (any-keep u f rows)
  ]
