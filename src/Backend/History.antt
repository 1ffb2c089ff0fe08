-- ===== src/Backend/History.antt =====
-- The configurations that a user has used last: `FingerprintConfig`, `UpsertHistory`,
-- `TrimHistory`, `DeleteHistory` and `ListHistory` of
-- backend/internal/repository/preset_repository.go, and `RecordHistory` and `ListHistory` of
-- backend/internal/service/preset_service.go, over the table of
-- backend/internal/config/migrations/0009_benchmark_presets.sql. The identifier that the database
-- draws and its time are arguments; `json.Marshal` with `sha256.Sum256` is a parameter. A query that
-- the database fails is left out.
pub mod Order
pub mod Steps
pub mod Push
pub mod Upserts
pub mod Recent
use bit_bench.Prelude.{
  ℕ, List, [], ◌∷◌, Bool, not, ◌&&◌, Str, str_eq, map, keep, take, sort, any, ltb, if◌then◌else◌,
}

-- `compressor.Instance`, with any options.
pub record UsedInstance (Options : Type 0) : Type 0 where
  pub name : Str
  pub options : Options
  pub label : Str
  pub platform : Str
  pub emulated : Bool

-- A row of the table; the time of its creation, which nothing reads, is left out.
pub record ConfigHistory (Options : Type 0) : Type 0 where
  pub id : Str
  pub user_id : Str
  pub compressors : List (UsedInstance Options)
  pub fingerprint : Str
  pub last_used_at : ℕ

-- `historyKeep`
abbrev pub history_keep : ℕ
history_keep = 20

module _ {Options : Type 0} where
  -- `WHERE user_id = $1`
  unfoldable pub of_user : Str → ConfigHistory Options → Bool
  of_user user row = str_eq row.user_id user

  -- `ORDER BY last_used_at DESC`
  unfoldable pub is_later : ConfigHistory Options → ConfigHistory Options → Bool
  is_later row other = ltb other.last_used_at row.last_used_at

  unfoldable pub latest : Str → ℕ → List (ConfigHistory Options) → List (ConfigHistory Options)
  unfolding of_user is_later
  latest user limit rows = take limit (sort is_later (keep (of_user user) rows))

  -- `ListHistory` of the repository
  unfoldable pub list_history :
      Str → ℕ → List (ConfigHistory Options) → List (ConfigHistory Options)
  unfolding latest
  list_history user limit rows = latest user (if ltb limit 1 then 20 else limit) rows

  -- `id NOT IN (...)`
  unfoldable pub is_listed : List (ConfigHistory Options) → ConfigHistory Options → Bool
  is_listed rows row = any (λ r. str_eq r.id row.id) rows

  -- `TrimHistory`
  unfoldable pub trim_history :
      Str → ℕ → List (ConfigHistory Options) → List (ConfigHistory Options)
  unfolding of_user latest is_listed
  trim_history user limit rows =
      let kept = latest user (if ltb limit 1 then 1 else limit) rows in
      keep (λ row. not (of_user user row && not (is_listed kept row))) rows

  -- `DeleteHistory`, which only tests call
  unfoldable pub delete_history : Str → List (ConfigHistory Options) → List (ConfigHistory Options)
  unfolding of_user
  delete_history user rows = keep (λ row. not (of_user user row)) rows

  -- `ON CONFLICT (user_id, fingerprint)`
  unfoldable pub is_conflict : Str → Str → ConfigHistory Options → Bool
  unfolding of_user
  is_conflict user fingerprint row = of_user user row && str_eq row.fingerprint fingerprint

  -- `DO UPDATE SET last_used_at = NOW()`
  unfoldable pub refresh :
      Str → Str → ℕ → List (ConfigHistory Options) → List (ConfigHistory Options)
  unfolding is_conflict
  refresh user fingerprint now [] = []
  refresh user fingerprint now (row ∷ rows) =
      (if is_conflict user fingerprint row then record row { last_used_at = now } else row)
      ∷ refresh user fingerprint now rows

  module _ (hash : List (Str × Options) → Str) where
    unfoldable pub fingerprint_config : List (UsedInstance Options) → Str
    fingerprint_config instances = hash (map (λ i. (i.name, i.options)) instances)

    unfoldable pub upsert_history :
        Str
        → ℕ
        → Str
        → List (UsedInstance Options)
        → List (ConfigHistory Options)
        → List (ConfigHistory Options)
    unfolding fingerprint_config is_conflict refresh
    upsert_history new_id now user instances rows =
        if any (is_conflict user (fingerprint_config instances)) rows
        then refresh user (fingerprint_config instances) now rows
        else record {
          id = new_id;
          user_id = user;
          compressors = instances;
          fingerprint = fingerprint_config instances;
          last_used_at = now;
        }
          ∷ rows

    -- `RecordHistory`
    unfoldable pub record_history :
        Str
        → ℕ
        → Str
        → List (UsedInstance Options)
        → List (ConfigHistory Options)
        → List (ConfigHistory Options)
    unfolding upsert_history trim_history
    record_history new_id now user instances rows =
        trim_history user history_keep (upsert_history new_id now user instances rows)

  -- `ListHistory` of the service, for an actor who is not nil
  unfoldable pub user_history : Str → List (ConfigHistory Options) → List (ConfigHistory Options)
  unfolding list_history
  user_history actor rows = list_history actor history_keep rows
