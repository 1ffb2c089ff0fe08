-- ===== src/Backend/History/Recent.antt =====
-- The history of each user after any uses of configurations.
use bit_bench.Prelude.{
  ℕ, ◌<◌, ◌≡◌, ◌≢◌, refl, ap, sym, ◌∙◌, inl, inr, List, [], ◌∷◌, Bool-cases, Str, str_eq,
  str_eq_iff, map, keep, take, sort, All, arith, if◌then◌else◌,
}
use bit_bench.Prelude.Ordered.{All-sort, All-mono, All-keep, Distinguished, keep-Distinguished}
use bit_bench.Backend.Rows.{take-take}
use bit_bench.Backend.History.{
  UsedInstance, ConfigHistory, of_user, is_later, latest, trim_history, fingerprint_config,
  upsert_history, record_history, list_history, user_history, history_keep,
}
use bit_bench.Backend.History.Order.{
  All-take, differs, in_front, in_front-Distinguished, take-others, history_of,
}
use bit_bench.Backend.History.Steps.{keep-trim_history_other}
use bit_bench.Backend.History.Upserts.{
  map-take, keep-upsert_history_other, All-record_history, upsert_history-ids, own-fingerprints,
  own-listed,
}

-- A use of a configuration: the user, when, and the identifier that a new row would get.
pub record Usage (Options : Type 0) : Type 0 where
  pub user : Str
  pub instances : List (UsedInstance Options)
  pub at : ℕ
  pub new_id : Str

-- Each is later than those before it, and has an identifier of its own. The latest comes first.
abbrev pub IsInOrder : {Options : Type 0} → List (Usage Options) → Type 0
IsInOrder [] = Unit {0}
IsInOrder (d ∷ earlier) =
    All (λ e. (e.at < d.at) × (e.new_id ≢ d.new_id)) earlier × IsInOrder earlier

module _ {Options : Type 0} (hash : List (Str × Options) → Str) where
  -- The table after these uses, the latest of which comes first.
  unfoldable pub recorded : List (Usage Options) → List (ConfigHistory Options)
  recorded [] = []
  recorded (d ∷ earlier) = record_history hash d.new_id d.at d.user d.instances (recorded earlier)

  -- The configurations that a user has used, each once, the one used last in front.
  unfoldable pub used : Str → List (Usage Options) → List Str
  used user [] = []
  used user (d ∷ earlier) =
      let before = used user earlier in
      if str_eq d.user user then in_front (fingerprint_config hash d.instances) before else before

  used-Distinguished :
      (user : Str) (uses : List (Usage Options)) → Distinguished (λ g. g) (used user uses)
  unfolding used
  used-Distinguished user [] = tt
  used-Distinguished user (d ∷ earlier) =
      let h = used-Distinguished user earlier in
      elim (Bool-cases (str_eq d.user user)) [
        | inl e ↦ rw e (in_front-Distinguished (fingerprint_config hash d.instances) _ h)
        | inr e ↦ rw e h
      ]

  fresh :
      (d : Usage Options) (earlier : List (Usage Options))
      → All (λ e. (e.at < d.at) × (e.new_id ≢ d.new_id)) earlier
      → All (λ r. (r.last_used_at < d.at) × (r.id ≢ d.new_id)) (recorded earlier)
  unfolding recorded
  fresh d [] h = tt
  fresh d (e ∷ earlier) ((lt, ne), h) =
      All-record_history hash e.new_id e.at _ e.user e.instances (recorded earlier)
        (λ r p. (lt, p.1)) (λ r same now _. (rw now lt, (λ q. ne (sym same ∙ q))))
        (fresh d earlier h)

  -- What holds of the table, and of each user, after these uses.
  record Follows (uses : List (Usage Options)) (rows : List (ConfigHistory Options)) : Type 0 where
    ids : Distinguished (λ r. r.id) rows
    fingerprints : (u : Str) → Distinguished (λ r. r.fingerprint) (keep (of_user u) rows)
    listed :
        (u : Str) → map (λ r. r.fingerprint) (history_of u rows) ≡ take history_keep (used u uses)

  module _ (d : Usage Options) (earlier : List (Usage Options))
      (before : All (λ e. (e.at < d.at) × (e.new_id ≢ d.new_id)) earlier)
      (h : Follows earlier (recorded earlier)) where
    table : List (ConfigHistory Options)
    table = upsert_history hash d.new_id d.at d.user d.instances (recorded earlier)

    step-ids : Distinguished (λ r. r.id) (recorded (d ∷ earlier))
    unfolding recorded record_history trim_history
    step-ids =
        let new = fresh d earlier before in
        keep-Distinguished (λ r. r.id) _ _
          (upsert_history-ids hash d.new_id d.at d.user d.instances (recorded earlier)
            (All-mono _ _ (recorded earlier) (λ r p. p.1) new) h.ids)

    step-fingerprints :
        (u : Str) → Distinguished (λ r. r.fingerprint) (keep (of_user u) (recorded (d ∷ earlier)))
    unfolding recorded record_history trim_history
    step-fingerprints u = elim (Bool-cases (str_eq d.user u)) [
      | inl e ↦
          let same : d.user ≡ u = (str_eq_iff d.user u).0 e in
          rw same (
            own-fingerprints hash d.new_id d.at u d.instances (recorded earlier) (h.fingerprints u))
      | inr e ↦
          let ne = differs d.user u e in
          rw
            (
              keep-trim_history_other u d.user history_keep _ ne,
              keep-upsert_history_other hash d.new_id d.at u d.user d.instances (recorded earlier)
                  ne,
            )
            (h.fingerprints u)
    ]

    step-listed :
        (u : Str)
        → map (λ r. r.fingerprint) (history_of u (recorded (d ∷ earlier)))
          ≡ take history_keep (used u (d ∷ earlier))
    unfolding recorded record_history used
    step-listed u = elim (Bool-cases (str_eq d.user u)) [
      | inl e ↦
          let same : d.user ≡ u = (str_eq_iff d.user u).0 e in
          let f = fingerprint_config hash d.instances in
          let times = All-mono _ _ (recorded earlier) (λ r p. p.0) (fresh d earlier before) in
          rw (same, (str_eq_iff u u).1 refl)
            (own-listed hash d.new_id d.at u d.instances (recorded earlier) times
                (upsert_history-ids hash d.new_id d.at u d.instances (recorded earlier)
                  (All-mono _ _ (recorded earlier) (λ r p. p.1) (fresh d earlier before)) h.ids)
                (h.fingerprints u)
              ∙ rw (h.listed u)
                  (ap (f ∷◌) (take-others f 19 (used u earlier) (used-Distinguished u earlier))))
      | inr e ↦
          let ne = differs d.user u e in
          rw
            (
              keep-trim_history_other u d.user history_keep _ ne,
              keep-upsert_history_other hash d.new_id d.at u d.user d.instances (recorded earlier)
                  ne,
              e,
            )
            (h.listed u)
    ]

  recorded-Follows : (uses : List (Usage Options)) → IsInOrder uses → Follows uses (recorded uses)
  unfolding recorded used sort
  recorded-Follows [] h = record { ids = tt; fingerprints = λ u. tt; listed = λ u. refl }
  recorded-Follows (d ∷ earlier) (before, h) =
      let rest = recorded-Follows earlier h in
      record {
        ids = step-ids d earlier before rest;
        fingerprints = step-fingerprints d earlier before rest;
        listed = step-listed d earlier before rest;
      }

  -- The fingerprint of a row is that of its configuration.
  recorded-fingerprints :
      (uses : List (Usage Options))
      → All (λ r. r.fingerprint ≡ fingerprint_config hash r.compressors) (recorded uses)
  unfolding recorded
  recorded-fingerprints [] = tt
  recorded-fingerprints (d ∷ earlier) =
      All-record_history hash d.new_id d.at _ d.user d.instances (recorded earlier) (λ r p. p)
        (λ r same now p. p) (recorded-fingerprints earlier)

  map_fingerprinted :
      (rows : List (ConfigHistory Options))
      → All (λ r. r.fingerprint ≡ fingerprint_config hash r.compressors) rows
      → map (λ r. fingerprint_config hash r.compressors) rows ≡ map (λ r. r.fingerprint) rows
  map_fingerprinted [] h = refl
  map_fingerprinted (r ∷ rows) (p, h) = rw (p, map_fingerprinted rows h) refl

  -- If each use of a configuration is later than those before it and draws an identifier of its
  -- own, the history of a user holds the 20 different configurations that the user used last, told
  -- apart by their fingerprints, the latest first.
  pub user_history-used :
      (uses : List (Usage Options)) (user : Str)
      → IsInOrder uses
      → map (λ r. fingerprint_config hash r.compressors) (user_history user (recorded uses))
        ≡ take history_keep (used user uses)
  unfolding user_history list_history latest
  user_history-used uses user h =
      let rows = history_of user (recorded uses) in
      let sound =
        All-sort is_later _ _
          (All-keep _ (of_user user) (recorded uses) (recorded-fingerprints uses)) in
      map_fingerprinted (take history_keep rows) (All-take _ history_keep rows sound)
      ∙ map-take history_keep rows
      ∙ rw ((recorded-Follows uses h).listed user)
          (take-take history_keep history_keep (used user uses) (omega arith))
