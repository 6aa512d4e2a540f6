-- ===== src/Tests/Fixtures.antt =====
-- A calendar of fixed months and years, a worker that always stores the same output, a stand-in
-- for pandas over texts, and a small database.
use bodp_app.Prelude.{ℕ, ◌+◌, ◌*◌, ◌≤◌, ◌<◌, ◌≡◌, false, some, none, String, List, [], ◌∷◌, arith}
use bodp_app.Prelude.Int.{pos}
use bodp_app.Scope.{no_criteria, Pandas, codes, lex_ltb}
use bodp_app.Models.{
  User, UserRoleEnum, UserStatus, Dataset, DatasetStatus, DatasetFile, DatasetRequest,
  RequestStatus, AccessGrant, GrantStatus, SubsetExtraction, ExtractionStatus, StoredOutput,
}
use bodp_app.Database.{Db}
use bodp_app.Requests.{Calendar}
use bodp_app.Extractions.{Work, stored}

pub add_grows : (t n d : ℕ) → 0 < n → 0 < d → t < t + n * d
add_grows t n d h k = grind arith

abbrev pub calendar : Calendar
calendar = record {
  add_days = λ t n. t + n * 86400;
  add_months = λ t n. t + n * 2592000;
  add_years = λ t n. t + n * 31536000;
  midnight = λ d. d * 86400;
  add_days_grows = λ t n h. add_grows t n 86400 h (omega arith);
  add_months_grows = λ t n h. add_grows t n 2592000 h (omega arith);
  add_years_grows = λ t n h. add_grows t n 31536000 h (omega arith);
}

abbrev pub output : StoredOutput
output = record {
  storage_backend = "vps_minio";
  bucket = "ocean";
  key = "extracts/1/1.csv";
  size_bytes = 10;
}

abbrev pub work : Work
work e g fs = stored output

abbrev pub first : List ℕ → ℕ
first [] = 0
first (c ∷ cs) = c

pub first_mono : (xs ys : List ℕ) → lex_ltb ys xs ≡ false → first xs ≤ first ys
unfolding lex_ltb
first_mono [] ys h = omega arith
first_mono (x ∷ xs) [] h = cc
first_mono (x ∷ xs) (y ∷ ys) h = ground arith

abbrev pub pandas : Pandas
pandas = record {
  Cell = String;
  to_datetime = λ c. some (first (codes c));
  to_numeric = λ c. some (pos (first (codes c)));
  to_str = λ c. c;
  timestamp = λ s. first (codes s);
  lower = λ s. s;
  timestamp_mono = λ s t _ _ h. first_mono (codes s) (codes t) h;
}

abbrev pub ada : User
ada = record {
  email = "ada@example.org";
  password_hash = "hash";
  full_name = "Ada";
  institution = none;
  phone = none;
  role = UserRoleEnum.user;
  status = UserStatus.active;
  email_verified_at = some 1;
  avatar_key = none;
  bio = none;
  research_area = none;
  datasets_granted = 1;
  deletion_requested_at = none;
}

-- A grant of dataset 5 to user 1, by request 11.
abbrev pub grant : AccessGrant
grant = record {
  user_id = 1;
  dataset_id = 5;
  request_id = some 11;
  granted_by = some 2;
  granted_at = 100;
  expires_at = 1000;
  status = GrantStatus.active;
  scope = none;
}

abbrev pub request : RequestStatus → DatasetRequest
request status = record {
  user_id = 1;
  dataset_id = 5;
  justification = "thesis";
  search_criteria = none;
  matching_record_count = some 3;
  dataset_total_record_count = some 9;
  dataset_version = some 1;
  status = status;
  reviewed_by = none;
  reviewed_at = none;
  updated_at = none;
  admin_note = none;
}

abbrev pub extraction : ExtractionStatus → SubsetExtraction
extraction status = record {
  grant_id = 7;
  requested_scope = some no_criteria;
  format = some "csv";
  status = status;
  output = some output;
  celery_task_id = none;
  error_message = none;
  completed_at = none;
}

abbrev pub dataset : Dataset
dataset = record {
  code = codes "BD-0005";
  title = "Tides";
  status = DatasetStatus.published;
  version = 1;
  record_count = 0;
}

abbrev pub file : DatasetFile
file = record {
  dataset_id = 5;
  file_name = "tides.csv";
  storage_backend = "vps_minio";
  storage_bucket = "ocean";
  storage_key = "raw/5/9_tides.csv";
  file_format = "csv";
  file_size_bytes = 100;
  uploaded_by = none;
  storage_kind = none;
  processed_bucket = none;
  processed_key = none;
  processed_prefix = none;
}

-- User 1 holds grant 7; extraction 3 under it is complete and extraction 4 is running. Request 12
-- waits.
abbrev pub db : Db
db = record {
  users = (1, ada) ∷ [];
  roles = [];
  user_roles = [];
  datasets = (5, dataset) ∷ [];
  dataset_files = (9, file) ∷ [];
  dataset_records = [];
  stations = [];
  media_files = [];
  supporting_documents = [];
  reports = [];
  backups = [];
  quality_issues = [];
  uploads = [];
  requests = (11, request RequestStatus.approved) ∷ (12, request RequestStatus.pending) ∷ [];
  grants = (7, grant) ∷ [];
  extractions =
      (3, extraction ExtractionStatus.complete) ∷ (4, extraction ExtractionStatus.processing) ∷ [];
  download_logs = [];
  audit_log = [];
  failed_logins = [];
  sessions = [];
  notifications = [];
}

abbrev pub revoked_grant : AccessGrant
revoked_grant = record grant { status = GrantStatus.revoked }

-- The same with the grant revoked and the running extraction failed.
abbrev pub revoked_db : Db
revoked_db = record db {
  grants = (7, revoked_grant) ∷ [];
  extractions =
      (3, extraction ExtractionStatus.complete) ∷ (4, extraction ExtractionStatus.failed) ∷ [];
}
