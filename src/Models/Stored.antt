-- ===== src/Models/Stored.antt =====
-- The other rows that point to stored objects (backend/app/models/admin.py, requests.py), and the
-- issues that a quality scan opens (uploads.py).
use bodp_app.Prelude.{ℕ, Option, String, Bool, true, false}

pub record MediaFile : Type 0 where
  pub storage_backend : String
  pub storage_bucket : String
  pub storage_key : String

pub record RequestSupportingDocument : Type 0 where
  pub request_id : ℕ
  pub storage_backend : String
  pub storage_bucket : String
  pub storage_key : String

pub record Report : Type 0 where
  pub output_storage_key : Option String

pub record Backup : Type 0 where
  pub storage_key : Option String

pub data QualityIssueType : Type 0 where
  missing_values outliers duplicate_records schema_mismatch : QualityIssueType

pub data QualityIssueSeverity : Type 0 where
  low medium high : QualityIssueSeverity

pub data QualityIssueStatus : Type 0 where
  opened resolved ignored : QualityIssueStatus

pub record QualityIssue : Type 0 where
  pub dataset_id : ℕ
  pub issue_type : QualityIssueType
  pub severity : QualityIssueSeverity
  pub status : QualityIssueStatus

abbrev pub type_code : QualityIssueType → ℕ
type_code QualityIssueType.missing_values = 0
type_code QualityIssueType.outliers = 1
type_code QualityIssueType.duplicate_records = 2
type_code QualityIssueType.schema_mismatch = 3

abbrev pub is_open : QualityIssueStatus → Bool
is_open QualityIssueStatus.opened = true
is_open QualityIssueStatus.resolved = false
is_open QualityIssueStatus.ignored = false
