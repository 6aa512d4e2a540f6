-- ===== src/Models/Requests.antt =====
-- Requests, grants, extractions and downloads (backend/app/models/requests.py), and the durations
-- of a grant (backend/app/schemas/requests.py).
use bodp_app.Prelude.{ℕ, Bool, true, false, Option, String}
use bodp_app.Scope.{SearchCriteria}

pub data RequestStatus : Type 0 where
  pending approved rejected : RequestStatus

pub data GrantStatus : Type 0 where
  active revoked expired : GrantStatus

pub data ExtractionStatus : Type 0 where
  queued processing complete failed : ExtractionStatus

pub data GrantDuration : Type 0 where
  five_days ten_days one_month two_months six_months one_year custom : GrantDuration

-- Without supporting_document_id, the file that the router attaches after the request is committed.
pub record DatasetRequest : Type 0 where
  pub user_id : ℕ
  pub dataset_id : ℕ
  pub justification : String
  pub search_criteria : Option SearchCriteria
  pub matching_record_count : Option ℕ
  pub dataset_total_record_count : Option ℕ
  pub dataset_version : Option ℕ
  pub status : RequestStatus
  pub reviewed_by : Option ℕ
  pub reviewed_at : Option ℕ
  pub updated_at : Option ℕ
  pub admin_note : Option String

pub record AccessGrant : Type 0 where
  pub user_id : ℕ
  pub dataset_id : ℕ
  pub request_id : Option ℕ
  pub granted_by : Option ℕ
  pub granted_at : ℕ
  pub expires_at : ℕ
  pub status : GrantStatus
  pub scope : Option SearchCriteria

-- The output columns of an extraction, which are set together.
pub record StoredOutput : Type 0 where
  pub storage_backend : String
  pub bucket : String
  pub key : String
  pub size_bytes : ℕ

pub record SubsetExtraction : Type 0 where
  pub grant_id : ℕ
  pub requested_scope : Option SearchCriteria
  pub format : Option String
  pub status : ExtractionStatus
  pub output : Option StoredOutput
  pub celery_task_id : Option String
  pub error_message : Option String
  pub completed_at : Option ℕ

pub record DownloadLog : Type 0 where
  pub grant_id : ℕ
  pub user_id : ℕ
  pub subset_extraction_id : Option ℕ

abbrev pub is_pending : RequestStatus → Bool
is_pending RequestStatus.pending = true
is_pending RequestStatus.approved = false
is_pending RequestStatus.rejected = false

abbrev pub is_active : GrantStatus → Bool
is_active GrantStatus.active = true
is_active GrantStatus.revoked = false
is_active GrantStatus.expired = false

abbrev pub is_complete : ExtractionStatus → Bool
is_complete ExtractionStatus.complete = true
is_complete ExtractionStatus.queued = false
is_complete ExtractionStatus.processing = false
is_complete ExtractionStatus.failed = false

-- `status.in_([QUEUED, PROCESSING])`
abbrev pub is_in_flight : ExtractionStatus → Bool
is_in_flight ExtractionStatus.queued = true
is_in_flight ExtractionStatus.processing = true
is_in_flight ExtractionStatus.complete = false
is_in_flight ExtractionStatus.failed = false
