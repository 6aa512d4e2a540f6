-- ===== src/Quality/Scan.antt =====
-- `run_qc_scan` and `update_issue_status`. The key of the n-th new issue of a scan is `draw n`. The
-- audit entry of a scan names no row: its target is 0.
use bodp_app.Prelude.{ℕ, suc, List, [], ◌∷◌, ◌++◌, ltb, if◌then◌else◌, map}
use bodp_app.Table.{Table, find, insert, update}
use bodp_app.Session.{Txn, http, pure, gets, or_raise, modify, commit, ◌>>=◌, ◌>>◌}
use bodp_app.Models.{
  User, Notification, AuditActionType, QualityIssue, QualityIssueType, QualityIssueSeverity,
  QualityIssueStatus, is_admin,
}
use bodp_app.Database.{Db, write_audit_log, raise_if_taken}
use bodp_app.Quality.Detect.{Statistics, has_open_issue, duplicates, outliers, missing_values}

abbrev pub severity_of : QualityIssueType → (found : ℕ) → QualityIssueSeverity
severity_of QualityIssueType.outliers n =
    if ltb n 10 then QualityIssueSeverity.low else QualityIssueSeverity.medium
severity_of QualityIssueType.missing_values n = QualityIssueSeverity.medium
severity_of QualityIssueType.duplicate_records n = QualityIssueSeverity.medium
severity_of QualityIssueType.schema_mismatch n = QualityIssueSeverity.medium

abbrev pub new_issue : QualityIssueType → (dataset_id found : ℕ) → QualityIssue
new_issue t dataset_id found = record {
  dataset_id = dataset_id;
  issue_type = t;
  severity = severity_of t found;
  status = QualityIssueStatus.opened;
}

-- The end of a detector: an issue for each flagged dataset that has none open.
unfoldable pub issues_for : Db → QualityIssueType → (flagged : List (ℕ × ℕ)) → List QualityIssue
issues_for db t [] = []
issues_for db t ((id, found) ∷ flagged) =
    let rest = issues_for db t flagged in
    if has_open_issue db id t then rest else new_issue t id found ∷ rest

abbrev pub uncounted : List ℕ → List (ℕ × ℕ)
uncounted = map λ id. (id, 1)

-- `_detect_duplicates`, `_detect_outliers`, `_detect_missing_values`
unfoldable pub new_issues : Statistics → Db → List QualityIssue
new_issues st db =
    issues_for db QualityIssueType.duplicate_records (uncounted (duplicates st db))
    ++ (issues_for db QualityIssueType.outliers (outliers st db)
        ++ issues_for db QualityIssueType.missing_values
            (uncounted (missing_values st db db.datasets)))

unfoldable pub add_issues : (draw : ℕ → ℕ) → (n : ℕ) → List QualityIssue → Txn Db (Unit {0})
add_issues draw n [] = pure tt
add_issues draw n (i ∷ issues) =
    raise_if_taken (draw n) (λ db. db.quality_issues)
    >> (modify (λ db. record db { quality_issues = insert (draw n) i db.quality_issues })
        >> add_issues draw (suc n) issues)

-- One for each admin.
unfoldable pub admin_notifications : Table User → List Notification
admin_notifications [] = []
admin_notifications ((id, u) ∷ users) =
    let rest = admin_notifications users in
    if is_admin u.role
    then record { user_id = id; title = "New data quality issues detected" } ∷ rest
    else rest

-- Nothing is told where nothing is new.
abbrev pub notified : List QualityIssue → Table User → List Notification
notified [] users = []
notified (i ∷ issues) users = admin_notifications users

-- `notify_admins`, where there are new issues
abbrev pub notify_admins : List QualityIssue → Db → Db
notify_admins issues db = record db { notifications = notified issues db.users ++ db.notifications }

unfoldable pub run_qc_scan : Statistics → (draw : ℕ → ℕ) → (actor : ℕ) → Txn Db (List QualityIssue)
run_qc_scan st draw actor = do
  issues ← gets (new_issues st)
  add_issues draw 0 issues
  modify (notify_admins issues)
  write_audit_log actor AuditActionType.dataset 0
  commit
  pure issues

unfoldable pub update_issue_status :
    (issue_id : ℕ) → QualityIssueStatus → (actor : ℕ) → Txn Db (Unit {0})
update_issue_status issue_id status actor = do
  issue ← or_raise (← gets (λ db. find issue_id db.quality_issues)) (http 404)
  modify λ db. record db {
    quality_issues =
        update issue_id (λ (i : QualityIssue). record i { status = status }) db.quality_issues;
  }
  write_audit_log actor AuditActionType.dataset issue_id
  commit
