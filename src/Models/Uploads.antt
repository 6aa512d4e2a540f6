-- ===== src/Models/Uploads.antt =====
-- Uploads of dataset files (backend/app/models/uploads.py).
use bodp_app.Prelude.{ℕ, Bool, true, false, Option, String}

pub data UploadStatus : Type 0 where
  initiated queued processing complete failed cancelled : UploadStatus

pub record Upload : Type 0 where
  pub dataset_id : Option ℕ
  pub dataset_file_id : Option ℕ
  pub file_name : String
  pub status : UploadStatus
  pub error_message : Option String
  pub uploaded_by : Option ℕ
  pub celery_task_id : Option String
  pub multipart_upload_id : Option String
  pub storage_bucket : Option String
  pub storage_key : Option String
  pub total_size_bytes : Option ℕ
  pub total_parts : Option ℕ
  pub uploaded_bytes : ℕ

abbrev pub is_initiated : UploadStatus → Bool
is_initiated UploadStatus.initiated = true
is_initiated UploadStatus.queued = false
is_initiated UploadStatus.processing = false
is_initiated UploadStatus.complete = false
is_initiated UploadStatus.failed = false
is_initiated UploadStatus.cancelled = false

abbrev pub is_cancelled : UploadStatus → Bool
is_cancelled UploadStatus.initiated = false
is_cancelled UploadStatus.queued = false
is_cancelled UploadStatus.processing = false
is_cancelled UploadStatus.complete = false
is_cancelled UploadStatus.failed = false
is_cancelled UploadStatus.cancelled = true
