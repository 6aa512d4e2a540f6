-- ===== src/Extractions/Handlers.antt =====
-- `create_extraction` with the router's ownership check, `get_extraction_for_user`, and
-- `download_extraction`.
use bodp_app.Prelude.{
  ℕ, ◌+◌, ◌&&◌, Bool, false, not, Option, none, some, String, [], ◌∷◌, ◌==◌, leb, if◌then◌else◌,
}
use bodp_app.Table.{Table, find, insert, update}
use bodp_app.Session.{Txn, http, pure, lift, gets, or_raise, modify, commit, raise_if, ◌>>=◌, ◌>>◌}
use bodp_app.Scope.{SearchCriteria, validate_scope_within_grant}
use bodp_app.Models.{
  AccessGrant, DatasetFile, StoredOutput, SubsetExtraction, ExtractionStatus, is_active,
  is_complete,
}
use bodp_app.Database.{Db, raise_if_taken}
use bodp_app.Extractions.Worker.{Work, process_extraction}

abbrev owned : ℕ → Option AccessGrant → Option AccessGrant
owned user none = none
owned user (some g) = if g.user_id == user then some g else none

-- `_get_owned_grant`
abbrev pub owned_grant : (user grant_id : ℕ) → Db → Option AccessGrant
owned_grant user grant_id db = owned user (find grant_id db.grants)

unfoldable pub total_size : ℕ → Table DatasetFile → ℕ
total_size dataset_id [] = 0
total_size dataset_id ((k, f) ∷ t) =
    (if f.dataset_id == dataset_id then f.file_size_bytes else 0) + total_size dataset_id t

-- A dataset that is not empty and small enough is extracted at once.
abbrev pub is_small : ℕ → ℕ → Bool
is_small threshold size = not (size == 0) && leb size threshold

-- The task queue's answer to `run_extraction.delay`.
abbrev pub enqueue : ℕ → String → Txn Db (Unit {0})
enqueue id task = do
  modify λ db. record db {
    extractions = update id (λ e. record e { celery_task_id = some task }) db.extractions;
  }
  commit

unfoldable pub create_extraction :
    Work
    → (threshold user now new_id grant_id : ℕ) → SearchCriteria
    → (format task : String) → Txn Db ℕ
create_extraction work threshold user now new_id grant_id scope format task = do
  grant ← or_raise (← gets (owned_grant user grant_id)) (http 404)
  raise_if (not (is_active grant.status)) (http 409)
  raise_if (leb grant.expires_at now) (http 409)
  lift (validate_scope_within_grant scope grant.scope)
  raise_if_taken new_id (λ db. db.extractions)
  modify λ db. record db {
    extractions =
        insert new_id
          (record {
            grant_id = grant_id;
            requested_scope = some scope;
            format = some format;
            status = ExtractionStatus.queued;
            output = none;
            celery_task_id = none;
            error_message = none;
            completed_at = none;
          })
          db.extractions;
  }
  commit
  size ← gets (λ db. total_size grant.dataset_id db.dataset_files)
  if is_small threshold size then process_extraction work now new_id none else enqueue new_id task
  pure new_id

abbrev owned_extraction : ℕ → SubsetExtraction → Option AccessGrant → Option SubsetExtraction
owned_extraction user e none = none
owned_extraction user e (some g) = if g.user_id == user then some e else none

-- `get_extraction_for_user`: the extraction, where the grant that it belongs to is the user's
abbrev pub extraction_for_user : (user id : ℕ) → Db → Option SubsetExtraction
extraction_for_user user id db = elim (find id db.extractions) [
  | none ↦ none
  | some e ↦ owned_extraction user e (find e.grant_id db.grants)
]

abbrev has_active_grant : Option AccessGrant → Bool
has_active_grant none = false
has_active_grant (some g) = is_active g.status

-- The reply is what the download link is signed for.
unfoldable pub download_extraction : (user id : ℕ) → Txn Db (Option StoredOutput)
download_extraction user id = do
  extraction ← or_raise (← gets (extraction_for_user user id)) (http 404)
  raise_if (not (is_complete extraction.status)) (http 409)
  grant_ok ← gets (λ db. has_active_grant (find extraction.grant_id db.grants))
  raise_if (not grant_ok) (http 409)
  modify λ db. record db {
    download_logs =
        record { grant_id = extraction.grant_id; user_id = user; subset_extraction_id = some id }
        ∷ db.download_logs;
  }
  commit
  pure extraction.output
