-- ===== src/Database.antt =====
-- The whole database, as one value: a table for each model, and the logs. What a handler does to
-- one table and leaves alone in the others is then part of what can be proved of it.
use bodp_app.Prelude.{ℕ, List, ◌∷◌, is_some, if◌then◌else◌}
use bodp_app.Table.{Table, find}
use bodp_app.Session.{Txn, ok, err, crash, modify}
use bodp_app.Models.{
  Station, MediaFile, RequestSupportingDocument, Report, Backup, QualityIssue, Upload, User, Role,
  UserRole, Dataset, DatasetFile, DatasetRecord, DatasetRequest, AccessGrant, SubsetExtraction,
  DownloadLog, AuditActionType, AuditLogEntry, FailedLogin, ActiveSession, Notification,
}

pub record Db : Type 0 where
  pub users : Table User
  pub roles : Table Role
  pub user_roles : Table UserRole
  pub datasets : Table Dataset
  pub dataset_files : Table DatasetFile
  pub dataset_records : Table DatasetRecord
  pub stations : Table Station
  pub media_files : Table MediaFile
  pub supporting_documents : Table RequestSupportingDocument
  pub reports : Table Report
  pub backups : Table Backup
  pub quality_issues : Table QualityIssue
  pub uploads : Table Upload
  pub requests : Table DatasetRequest
  pub grants : Table AccessGrant
  pub extractions : Table SubsetExtraction
  pub download_logs : List DownloadLog
  pub audit_log : List AuditLogEntry
  pub failed_logins : List FailedLogin
  pub sessions : Table ActiveSession
  pub notifications : List Notification

-- `write_audit_log` (backend/app/services/audit_service.py): the entry is added, and the caller
-- commits.
abbrev pub write_audit_log : ℕ → AuditActionType → ℕ → Txn Db (Unit {0})
write_audit_log actor kind target = modify λ db. record db {
  audit_log = record { actor_id = actor; action_type = kind; target = target } ∷ db.audit_log;
}

-- Adding a row under a key that the table has already breaks the primary key: a crash, and not an
-- HTTP error. Keys are drawn by `uuid4`.
abbrev pub raise_if_taken {ℓ} : {R : Type ℓ} → ℕ → (Db → Table R) → Txn Db (Unit {0})
raise_if_taken key table s =
    if is_some (find key (table s.working)) then (err crash, s) else (ok tt, s)
