-- ===== src/Uploads/Handlers.antt =====
-- The operations on an upload. Object storage is outside: what it lists and measures is an argument,
-- and the calls that only tell it to abort or delete are left out.
use bodp_app.Prelude.{
  ℕ, ◌+◌, ◌-◌, ◌*◌, ◌/◌, min, max, Bool, true, false, not, ◌&&◌, Option, none, some, String, leb,
  ◌==◌, if◌then◌else◌,
}
use bodp_app.Table.{find, insert, update, delete, delete_where}
use bodp_app.Session.{
  Txn, http, crash, pure, raise, gets, or_raise, modify, commit, raise_if, ◌>>=◌, ◌>>◌,
}
use bodp_app.Models.{Upload, UploadStatus, DatasetFile, DatasetRecord, is_initiated, is_cancelled}
use bodp_app.Database.{Db, raise_if_taken}

abbrev pub part_size_bytes : ℕ
part_size_bytes = 64 * 1024 * 1024

-- `max(1, math.ceil(total_size_bytes / PART_SIZE_BYTES))`
unfoldable pub parts_of : ℕ → ℕ
parts_of total_size_bytes = max 1 ((total_size_bytes + (part_size_bytes - 1)) / part_size_bytes)

-- `_require_upload`
abbrev pub require_upload : ℕ → Txn Db Upload
require_upload id = do or_raise (← gets (λ db. find id db.uploads)) (http 404)

-- `n or 0`, and `n or m` for a size that may be missing or zero
abbrev pub or_else : Option ℕ → ℕ → ℕ
or_else none m = m
or_else (some n) m = if n == 0 then m else n

-- Whether a part may be presigned.
unfoldable pub presign_part : (upload_id part_number : ℕ) → Txn Db Upload
presign_part upload_id part_number = do
  upload ← require_upload upload_id
  raise_if (not (is_initiated upload.status)) (http 400)
  raise_if (not (leb 1 part_number && leb part_number (or_else upload.total_parts 0))) (http 400)
  pure upload

abbrev pub progressed : (size_bytes : ℕ) → Upload → Upload
progressed size_bytes u = record u {
  uploaded_bytes = min (u.uploaded_bytes + size_bytes) (or_else u.total_size_bytes size_bytes);
}

unfoldable pub mark_part_uploaded : (upload_id size_bytes : ℕ) → Txn Db (Unit {0})
mark_part_uploaded upload_id size_bytes = do
  upload ← require_upload upload_id
  raise_if (not (is_initiated upload.status)) (http 400)
  modify λ db. record db { uploads = update upload_id (progressed size_bytes) db.uploads }
  commit

-- `len(real_parts) == upload.total_parts`
abbrev pub is_whole : (parts : ℕ) → Option ℕ → Bool
is_whole parts none = false
is_whole parts (some n) = parts == n

-- The row of the finished file: `format` is the extension of the name, `size` what storage
-- measured.
abbrev pub file_of :
    (dataset_id : ℕ) → (bucket key backend format : String) → (size : ℕ) → Upload → DatasetFile
file_of dataset_id bucket key backend format size u = record {
  dataset_id = dataset_id;
  file_name = u.file_name;
  storage_backend = backend;
  storage_bucket = bucket;
  storage_key = key;
  file_format = format;
  file_size_bytes = size;
  uploaded_by = u.uploaded_by;
  storage_kind = none;
  processed_bucket = none;
  processed_key = none;
  processed_prefix = none;
}

abbrev pub queued_with : (file_id : ℕ) → Upload → Upload
queued_with file_id u = record u {
  status = UploadStatus.queued;
  uploaded_bytes = or_else u.total_size_bytes u.uploaded_bytes;
  dataset_file_id = some file_id;
}

-- `parts` is the number of parts that storage lists. A file without its dataset, its
-- bucket or its key, and a key that is taken, break the constraints of the table.
unfoldable pub complete_multipart_upload :
    (upload_id parts size : ℕ) → (backend format : String) → Txn Db (Unit {0})
complete_multipart_upload upload_id parts size backend format = do
  upload ← require_upload upload_id
  raise_if (not (is_initiated upload.status)) (http 400)
  raise_if (not (is_whole parts upload.total_parts)) (http 400)
  dataset_id ← or_raise upload.dataset_id crash
  bucket ← or_raise upload.storage_bucket crash
  key ← or_raise upload.storage_key crash
  raise_if_taken upload_id (λ db. db.dataset_files)
  modify λ db. record db {
    dataset_files =
        insert upload_id (file_of dataset_id bucket key backend format size upload)
          db.dataset_files;
  }
  modify λ db. record db { uploads = update upload_id (queued_with upload_id) db.uploads }
  commit

abbrev pub cancelled_with : String → Upload → Upload
cancelled_with message u = record u {
  status = UploadStatus.cancelled;
  error_message = some message;
}

abbrev pub cancelled_unlinked : String → Upload → Upload
cancelled_unlinked message u = record u {
  status = UploadStatus.cancelled;
  error_message = some message;
  dataset_file_id = none;
}

-- The rows that hang on a file, and the file.
abbrev pub is_record_of : ℕ → DatasetRecord → Bool
is_record_of file_id r = elim r.dataset_file_id [ none ↦ false | some f ↦ f == file_id ]

abbrev pub drop_file : Option ℕ → Db → Db
drop_file none db = db
drop_file (some file_id) db = elim (find file_id db.dataset_files) [
  | none ↦ db
  | some f ↦ record db {
    dataset_records = delete_where (is_record_of file_id) db.dataset_records;
    dataset_files = delete file_id db.dataset_files;
  }
]

-- The write of a cancellation, by the status that it finds.
abbrev pub cancel_by_status : (upload_id : ℕ) → Option ℕ → UploadStatus → Txn Db (Unit {0})
cancel_by_status id file UploadStatus.initiated = modify λ db. record db {
  uploads = update id (cancelled_with "Cancelled before upload completed.") db.uploads;
}
cancel_by_status id file UploadStatus.queued =
    modify (drop_file file)
    >> modify λ db. record db {
      uploads =
          update id
            (cancelled_unlinked "Cancelled after upload completed, before processing started.")
            db.uploads;
    }
cancel_by_status id file UploadStatus.processing = modify λ db. record db {
  uploads = update id (cancelled_with "Cancellation requested during processing.") db.uploads;
}
cancel_by_status id file UploadStatus.complete = raise (http 400)
cancel_by_status id file UploadStatus.failed = raise (http 400)
cancel_by_status id file UploadStatus.cancelled = raise (http 400)

-- The revocation of the Celery task, which may kill it, is left out.
unfoldable pub cancel_upload : (upload_id : ℕ) → Txn Db (Unit {0})
cancel_upload upload_id = do
  upload ← require_upload upload_id
  cancel_by_status upload_id upload.dataset_file_id upload.status
  commit

abbrev pub set_processing_upload : (task : Option String) → Upload → Upload
set_processing_upload task u = record u { status = UploadStatus.processing; celery_task_id = task }

abbrev pub begin_found : (upload_id : ℕ) → (task : Option String) → Option Upload → Txn Db Bool
begin_found upload_id task none = pure true
begin_found upload_id task (some upload) = if is_cancelled upload.status then pure false else (do
  modify λ db. record db { uploads = update upload_id (set_processing_upload task) db.uploads }
  commit
  pure true)

-- `process_dataset_file` up to its first commit: true where the ingestion goes on.
unfoldable pub begin_ingestion :
    (upload_id dataset_file_id : ℕ) → (task : Option String) → Txn Db Bool
begin_ingestion upload_id dataset_file_id task = do
  file ← gets (λ db. find dataset_file_id db.dataset_files)
  upload ← gets (λ db. find upload_id db.uploads)
  elim file [ none ↦ pure false | some f ↦ begin_found upload_id task upload ]

abbrev pub set_complete : (file_id : ℕ) → Upload → Upload
set_complete file_id u = record u { status = UploadStatus.complete; dataset_file_id = some file_id }

-- The commit after an ingestion that succeeded.
unfoldable pub finish_ingestion : (upload_id file_id : ℕ) → Txn Db (Unit {0})
finish_ingestion upload_id file_id = do
  or_raise (← gets (λ db. find upload_id db.uploads)) crash
  modify λ db. record db { uploads = update upload_id (set_complete file_id) db.uploads }
  commit
