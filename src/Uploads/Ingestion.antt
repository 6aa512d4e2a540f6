-- ===== src/Uploads/Ingestion.antt =====
-- `process_dataset_file` (backend/app/worker/tasks/ingestion.py) from its first commit to its last.
-- The work on the file is a list of stages: each says what other sessions commit while it runs, how
-- it fails, if it does, and whether a checkpoint comes after it. Storage is left out.
use bodp_app.Prelude.{
  ℕ, String, Bool, true, false, Option, none, some, List, [], ◌∷◌, ◌==◌, ◌&&◌, ◌||◌, not, is_some,
  if◌then◌else◌,
}
use bodp_app.Table.{find, insert, update, update_where, delete, delete_where}
use bodp_app.Session.{Result, ok, err, run, exec}
use bodp_app.Models.{
  Upload, UploadStatus, DatasetFile, DatasetRecord, QualityIssue, QualityIssueType,
  QualityIssueSeverity, QualityIssueStatus, AuditActionType, is_cancelled,
}
use bodp_app.Database.{Db}
use bodp_app.Uploads.Handlers.{begin_ingestion, finish_ingestion}

-- The exceptions that `_run_ingestion` ends with: `IngestionCancelled`, `ZarrUploadFailed`,
-- `IntegrityError`, `ParserError`, `SoftTimeLimitExceeded`, any other.
pub data Failure : Type 0 where
  ingestion_cancelled zarr_upload_failed integrity_error parser_error soft_time_limit_exceeded
        unexpected :
      Failure

pub record Stage : Type 0 where
  pub others : Db → Db
  pub failure : Option Failure
  pub checked : Bool

-- Which writes reach the database: the first commit, the commit after a success, and, on a path of
-- failure, the clean-up and the write of the final status. Where one of the first two fails, or the
-- soft time limit strikes beside the work, the exception leaves the task.
pub record Writes : Type 0 where
  pub first : Bool
  pub last : Bool
  pub cleanup : Bool
  pub terminal : Bool

-- `_checkpoint`: no upload is tracked, it is gone (the refresh raises), or its status is read again.
abbrev pub checkpoint : (tracked : Bool) → Option Upload → Option Failure
checkpoint false u = none
checkpoint true none = some Failure.unexpected
checkpoint true (some u) = if is_cancelled u.status then some Failure.ingestion_cancelled else none

-- What follows a stage: the failure of the stage, of the checkpoint, or the stages after it.
abbrev pub after_stage :
    (work check : Option Failure) → Option Failure × Db → Db → Option Failure × Db
after_stage (some e) check go_on db = (some e, db)
after_stage none (some e) go_on db = (some e, db)
after_stage none none go_on db = go_on

unfoldable pub run_stages :
    (tracked : Bool) → (upload_id : ℕ) → List Stage → Db → Option Failure × Db
run_stages tracked upload_id [] db = (none, db)
run_stages tracked upload_id (s ∷ stages) db =
    let now = s.others db in
    let go_on = run_stages tracked upload_id stages now in
    after_stage s.failure (checkpoint (tracked && s.checked) (find upload_id now.uploads)) go_on now

abbrev pub with_status : UploadStatus → Upload → Upload
with_status status u = record u { status = status }

-- `_set_upload_terminal_state`, on a session of its own; where that fails too, the failure is logged
-- and the row stays as it is.
unfoldable pub set_upload_terminal_state :
    (written : Bool) → (upload_id : ℕ) → UploadStatus → Db → Db
set_upload_terminal_state false upload_id status db = db
set_upload_terminal_state true upload_id status db = record db {
  uploads = update upload_id (with_status status) db.uploads;
}

abbrev pub names_file : ℕ → Option ℕ → Bool
names_file file_id none = false
names_file file_id (some f) = f == file_id

abbrev pub unlinked : Upload → Upload
unlinked u = record u { dataset_file_id = none }

-- `_cleanup_cancelled_ingestion`, which may itself fail and then leaves everything.
unfoldable pub cleanup_cancelled_ingestion : (works : Bool) → (file_id : ℕ) → Db → Db
cleanup_cancelled_ingestion false file_id db = db
cleanup_cancelled_ingestion true file_id db = record db {
  dataset_records =
      delete_where (λ (r : DatasetRecord). names_file file_id r.dataset_file_id) db.dataset_records;
  dataset_files = delete file_id db.dataset_files;
  uploads = update_where (λ (u : Upload). names_file file_id u.dataset_file_id) unlinked db.uploads;
}

-- The audit entry of a checksum that does not match: the system is actor 0.
abbrev pub with_integrity_entry : (file_id : ℕ) → Db → Db
with_integrity_entry file_id db = record db {
  audit_log =
      record { actor_id = 0; action_type = AuditActionType.dataset; target = file_id }
      ∷ db.audit_log;
}

-- The entry that a successful upload leaves in quality control.
abbrev pub passed : (dataset_id : ℕ) → QualityIssue
passed dataset_id = record {
  dataset_id = dataset_id;
  issue_type = QualityIssueType.schema_mismatch;
  severity = QualityIssueSeverity.low;
  status = QualityIssueStatus.resolved;
}

module _ (upload_id file_id dataset_id issue_id : ℕ) (writes : Writes) (tracked : Bool) where
  abbrev pub completed : Db → Db
  completed db = record db {
    quality_issues = insert issue_id (passed dataset_id) db.quality_issues;
  }

  abbrev pub end_with : UploadStatus → Db → Db
  end_with status db = set_upload_terminal_state (writes.terminal && tracked) upload_id status db

  -- How each end of the work is settled.
  unfoldable pub settle : Option Failure → Db → Db
  settle none db =
      if tracked && writes.last
      then completed (exec (finish_ingestion upload_id file_id) db)
      else db
  settle (some Failure.ingestion_cancelled) db =
      end_with UploadStatus.cancelled (cleanup_cancelled_ingestion writes.cleanup file_id db)
  settle (some Failure.zarr_upload_failed) db =
      end_with UploadStatus.failed (cleanup_cancelled_ingestion writes.cleanup file_id db)
  settle (some Failure.soft_time_limit_exceeded) db =
      end_with UploadStatus.failed (cleanup_cancelled_ingestion writes.cleanup file_id db)
  settle (some Failure.integrity_error) db =
      end_with UploadStatus.failed (with_integrity_entry file_id db)
  settle (some Failure.parser_error) db = end_with UploadStatus.failed db
  settle (some Failure.unexpected) db = end_with UploadStatus.failed db

-- What follows the first commit, from how that ended.
unfoldable pub ingest :
    (upload_id file_id issue_id : ℕ)
    → List Stage
    → Writes
    → DatasetFile
    → Result Bool × Db
    → (tracked : Bool) → Db
ingest upload_id file_id issue_id stages writes file (ok true, db) tracked =
    let (end, last) = run_stages tracked upload_id stages db in
    settle upload_id file_id file.dataset_id issue_id writes tracked end last
ingest upload_id file_id issue_id stages writes file (ok false, db) tracked = db
ingest upload_id file_id issue_id stages writes file (err e, db) tracked = db

-- The row of the file is looked up first; a failure of the first commit leaves everything.
unfoldable pub process_found :
    (upload_id file_id issue_id : ℕ)
    → (task : Option String) → List Stage
    → Writes
    → Option DatasetFile
    → Db
    → Db
process_found upload_id file_id issue_id task stages writes none db = db
process_found upload_id file_id issue_id task stages writes (some file) db =
    let begun = run (begin_ingestion upload_id file_id task) db in
    let tracked = is_some (find upload_id db.uploads) in
    if writes.first || not tracked
    then ingest upload_id file_id issue_id stages writes file begun tracked
    else db

unfoldable pub process_dataset_file :
    (upload_id file_id issue_id : ℕ) → (task : Option String) → List Stage → Writes → Db → Db
process_dataset_file upload_id file_id issue_id task stages writes db =
    process_found upload_id file_id issue_id task stages writes (find file_id db.dataset_files) db
