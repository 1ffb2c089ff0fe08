-- ===== src/Backend/History/Upserts.antt =====
-- What recording one use keeps: the rows of each user, and different identifiers and fingerprints.
use bit_bench.Prelude.{
  ℕ, zero, suc, ◌<◌, ◌≡◌, ◌≢◌, refl, ap, sym, subst, ◌∙◌, inl, inr, List, [], ◌∷◌, true, Bool-cases,
  Str, str_eq_iff, map, keep, take, any, All,
}
use bit_bench.Prelude.Ordered.{All-keep, Distinguished, keep-Distinguished}
use bit_bench.Backend.History.{
  UsedInstance, ConfigHistory, of_user, is_listed, latest, trim_history, is_conflict, refresh,
  fingerprint_config, upsert_history, record_history, history_keep,
}
use bit_bench.Backend.History.Order.{not_self, in_front, history_of, All-refresh}
use bit_bench.Backend.History.Steps.{
  keep-trimmed, history_of-trim_history, keep-refresh_other, keep-refresh, any-keep,
}
use bit_bench.Backend.History.Push.{All-differ, sort-upsert_history-in_front}

module _ {Options : Type 0} where
  keep-of_user :
      (u : Str) (rows : List (ConfigHistory Options))
      → All (λ r. of_user u r ≡ true) (keep (of_user u) rows)
  keep-of_user u [] = tt
  keep-of_user u (r ∷ rows) = elim (Bool-cases (of_user u r)) [
    | inl e ↦ rw e (e, keep-of_user u rows)
    | inr e ↦ rw e (keep-of_user u rows)
  ]

  pub map-take :
      (n : ℕ) (rows : List (ConfigHistory Options))
      → map (λ r. r.fingerprint) (take n rows) ≡ take n (map (λ r. r.fingerprint) rows)
  map-take zero rows = refl
  map-take (suc n) [] = refl
  map-take (suc n) (r ∷ rows) = ap (r.fingerprint ∷◌) (map-take n rows)

module _ {Options : Type 0} (hash : List (Str × Options) → Str) where
  module _ (id : Str) (now : ℕ) where
    pub keep-upsert_history :
        (u : Str) (instances : List (UsedInstance Options)) (rows : List (ConfigHistory Options))
        → keep (of_user u) (upsert_history hash id now u instances rows)
          ≡ upsert_history hash id now u instances (keep (of_user u) rows)
    unfolding upsert_history of_user
    keep-upsert_history u instances rows =
        let f = fingerprint_config hash instances in
        elim (Bool-cases (any (is_conflict u f) rows)) [
          | inl e ↦ rw (any-keep u f rows, e) (keep-refresh u f now rows)
          | inr e ↦ rw (any-keep u f rows, e, (str_eq_iff u u).1 refl) refl
        ]

    pub keep-upsert_history_other :
        (u user : Str) (instances : List (UsedInstance Options))
        (rows : List (ConfigHistory Options))
        → user ≢ u
        → keep (of_user u) (upsert_history hash id now user instances rows) ≡ keep (of_user u) rows
    unfolding upsert_history of_user
    keep-upsert_history_other u user instances rows ne =
        let f = fingerprint_config hash instances in
        elim (Bool-cases (any (is_conflict user f) rows)) [
          | inl e ↦ rw e (keep-refresh_other u user f now rows ne)
          | inr e ↦ rw (e, not_self user u ne) refl
        ]

    -- What holds of the old rows, of a refreshed row and of a new one, holds of all.
    pub All-record_history :
        (P : ConfigHistory Options → Type 0) (user : Str) (instances : List (UsedInstance Options))
        (rows : List (ConfigHistory Options))
        → ((r : ConfigHistory Options) → P r → P (record r { last_used_at = now }))
        → ((r : ConfigHistory Options)
            → r.id ≡ id
            → r.last_used_at ≡ now
            → r.fingerprint ≡ fingerprint_config hash r.compressors
            → P r)
        → All P rows
        → All P (record_history hash id now user instances rows)
    unfolding record_history trim_history upsert_history
    All-record_history P user instances rows moved new h =
        let f = fingerprint_config hash instances in
        All-keep P _ (upsert_history hash id now user instances rows)
          (elim (Bool-cases (any (is_conflict user f) rows)) [
            | inl e ↦ rw e (All-refresh P P user f now rows (λ r p. p) moved h)
            | inr e ↦ rw e (new _ refl refl refl, h)
          ])

    refresh-Distinguished :
        (key : ConfigHistory Options → Str) (user f : Str) (rows : List (ConfigHistory Options))
        → ((r : ConfigHistory Options) → key (record r { last_used_at = now }) ≡ key r)
        → Distinguished key rows
        → Distinguished key (refresh user f now rows)
    unfolding refresh
    refresh-Distinguished key user f [] same h = tt
    refresh-Distinguished key user f (r ∷ rows) same (new, h) =
        let rest = refresh-Distinguished key user f rows same h in
        let apart : All (λ s. key s ≢ key r) (refresh user f now rows) =
          All-refresh _ _ user f now rows (λ s p. p) (λ s p e. p (sym (same s) ∙ e)) new in
        elim (Bool-cases (is_conflict user f r)) [
          | inl e ↦ rw (e, same r) (apart, rest)
          | inr e ↦ rw e (apart, rest)
        ]

    pub upsert_history-ids :
        (user : Str) (instances : List (UsedInstance Options)) (rows : List (ConfigHistory Options))
        → All (λ r. r.id ≢ id) rows
        → Distinguished (λ r. r.id) rows
        → Distinguished (λ r. r.id) (upsert_history hash id now user instances rows)
    unfolding upsert_history
    upsert_history-ids user instances rows new h =
        let f = fingerprint_config hash instances in
        elim (Bool-cases (any (is_conflict user f) rows)) [
          | inl e ↦ rw e (refresh-Distinguished (λ r. r.id) user f rows (λ r. refl) h)
          | inr e ↦ rw e (new, h)
        ]

    pub upsert_history-fingerprints :
        (u : Str) (instances : List (UsedInstance Options)) (rows : List (ConfigHistory Options))
        → All (λ r. of_user u r ≡ true) rows
        → Distinguished (λ r. r.fingerprint) rows
        → Distinguished (λ r. r.fingerprint) (upsert_history hash id now u instances rows)
    unfolding upsert_history
    upsert_history-fingerprints u instances rows own h =
        let f = fingerprint_config hash instances in
        elim (Bool-cases (any (is_conflict u f) rows)) [
          | inl e ↦ rw e (refresh-Distinguished (λ r. r.fingerprint) u f rows (λ r. refl) h)
          | inr e ↦ rw e (All-differ u f rows own e, h)
        ]

    module _ (u : Str) (instances : List (UsedInstance Options))
        (rows : List (ConfigHistory Options)) where
      pub own-fingerprints :
          Distinguished (λ r. r.fingerprint) (keep (of_user u) rows)
          → Distinguished
              (λ r. r.fingerprint)
              (keep (of_user u) (record_history hash id now u instances rows))
      unfolding record_history trim_history
      own-fingerprints h =
          let after = upsert_history hash id now u instances rows in
          let kept = latest u history_keep after in
          subst (Distinguished (λ r. r.fingerprint))
            (sym (
              keep-trimmed u kept after
              ∙ ap (keep (is_listed kept)) (keep-upsert_history u instances rows)))
            (keep-Distinguished (λ r. r.fingerprint) (is_listed kept) _
              (upsert_history-fingerprints u instances (keep (of_user u) rows) (keep-of_user u rows)
                h))

      pub own-listed :
          All (λ r. r.last_used_at < now) rows
          → Distinguished (λ r. r.id) (upsert_history hash id now u instances rows)
          → Distinguished (λ r. r.fingerprint) (keep (of_user u) rows)
          → map (λ r. r.fingerprint) (history_of u (record_history hash id now u instances rows))
            ≡ take history_keep (
                in_front
                  (fingerprint_config hash instances)
                  (map (λ r. r.fingerprint) (history_of u rows)))
      unfolding record_history
      own-listed before ids h =
          rw
            (
              history_of-trim_history u (upsert_history hash id now u instances rows) ids,
              map-take history_keep (history_of u (upsert_history hash id now u instances rows)),
              keep-upsert_history u instances rows,
            )
            (ap (take history_keep) (
              sort-upsert_history-in_front hash id u now instances (keep (of_user u) rows)
                (keep-of_user u rows) (All-keep _ _ rows before) h))
