-- ===== src/Uploads/Start.antt =====
-- How an upload begins: the checks of `ingestion_service.py`, `initiate_multipart_upload`, and
-- `upload_dataset_file` for small files. The size and the sniffed content of a small file, its
-- checksum and what storage measures are arguments; `spell` makes a text of code points.
use bodp_app.Prelude.{
  ℕ, suc, ◌*◌, Bool, not, ◌&&◌, ◌||◌, Option, none, some, String, List, [], ◌∷◌, ◌++◌, leb, ltb,
  ◌==◌, if◌then◌else◌, any, length, is_some, ◌+◌,
}
use bodp_app.Scope.{codes}
use bodp_app.Table.{find, insert}
use bodp_app.Session.{Txn, http, pure, gets, or_raise, modify, commit, raise_if, ◌>>=◌, ◌>>◌}
use bodp_app.Models.{Upload, UploadStatus, DatasetFile}
use bodp_app.Database.{Db, raise_if_taken}
use bodp_app.Storage.{Text, Uuids, has, after_last, text_eq, raw_key}
use bodp_app.Uploads.Handlers.{parts_of, or_else}

-- `_SUPPORTED_EXTENSIONS`
abbrev pub supported_extensions : List Text
supported_extensions =
    codes "csv"
    ∷ codes "nc"
    ∷ codes "netcdf"
    ∷ codes "nc4"
    ∷ codes "mat"
    ∷ codes "tif"
    ∷ codes "tiff"
    ∷ codes "geotiff"
    ∷ []

-- The last component of a path that is neither empty nor a dot, as pathlib takes it.
unfoldable pub split_at : (sep : ℕ) → Text → Text → List Text
split_at sep [] part = part ∷ []
split_at sep (c ∷ s) part =
    let cut = split_at sep s [] in
    let go_on = split_at sep s (part ++ (c ∷ [])) in if c == sep then part ∷ cut else go_on

unfoldable pub last_component : List Text → Text → Text
last_component [] name = name
last_component (p ∷ ps) name =
    last_component ps (if text_eq p [] || text_eq p (codes ".") then name else p)

-- `Path(filename).suffix.lstrip(".")`: what follows the last dot of the name, unless the dot comes
-- first or last.
unfoldable pub suffix : Text → Text
suffix filename =
    let name = last_component (split_at b'/' filename []) [] in
    let tail = after_last b'.' name in
    if not (has b'.' name) || length name == suc (length tail) || length tail == 0 then [] else tail

abbrev pub lower_letter : ℕ → ℕ
lower_letter c = if leb b'A' c && leb c b'Z' then c + 32 else c

-- `s.lower()` of letters A to Z; no other character's lower case is in a supported extension.
unfoldable pub lower_text : Text → Text
lower_text [] = []
lower_text (c ∷ s) = lower_letter c ∷ lower_text s

unfoldable pub validate_extension : (filename : Text) → Option Text
validate_extension filename =
    let ext = lower_text (suffix filename) in
    if any (text_eq ext) supported_extensions then some ext else none

-- The limit in megabytes: the argument, or the setting where it is missing or zero.
abbrev pub limit_bytes : (max_upload_size_mb : Option ℕ) → (setting : ℕ) → ℕ
limit_bytes max_upload_size_mb setting = or_else max_upload_size_mb setting * 1024 * 1024

unfoldable pub size_is_valid :
    (size_bytes : ℕ) → (max_upload_size_mb : Option ℕ) → (setting : ℕ) → Bool
size_is_valid size_bytes max_upload_size_mb setting =
    not (ltb (limit_bytes max_upload_size_mb setting) size_bytes) && not (size_bytes == 0)

abbrev pub started_upload :
    (dataset_id : ℕ)
    → (filename : String) → (size : ℕ) → (uploaded_by : Option ℕ)
    → (multipart_id bucket key : String) → Upload
started_upload dataset_id filename size uploaded_by multipart_id bucket key = record {
  dataset_id = some dataset_id;
  dataset_file_id = none;
  file_name = filename;
  status = UploadStatus.initiated;
  error_message = none;
  uploaded_by = uploaded_by;
  celery_task_id = none;
  multipart_upload_id = some multipart_id;
  storage_bucket = some bucket;
  storage_key = some key;
  total_size_bytes = some size;
  total_parts = some (parts_of size);
  uploaded_bytes = 0;
}

module _ (uuids : Uuids) (spell : Text → String) (setting : ℕ) where
  -- The number of parts, which the client slices the file by.
  unfoldable pub initiate_multipart_upload :
      (file_id dataset_id : ℕ)
      → (filename : String) → (total_size_bytes : ℕ) → (uploaded_by max_upload_size_mb : Option ℕ)
      → (multipart_id bucket : String) → Txn Db ℕ
  initiate_multipart_upload file_id dataset_id filename size uploaded_by max_mb multipart_id
        bucket =
      do
        or_raise (← gets (λ db. find dataset_id db.datasets)) (http 404)
        raise_if (not (is_some (validate_extension (codes filename)))) (http 400)
        raise_if (not (size_is_valid size max_mb setting)) (http 400)
        raise_if_taken file_id (λ db. db.uploads)
        modify λ db. record db {
          uploads =
              insert file_id
                (started_upload dataset_id filename size uploaded_by multipart_id bucket
                  (spell (raw_key uuids dataset_id file_id (codes filename))))
                db.uploads;
        }
        commit
        pure (parts_of size)

  abbrev pub small_file :
      (file_id dataset_id : ℕ)
      → (filename : String) → (stored_bytes : ℕ) → (uploaded_by : Option ℕ)
      → (backend bucket : String) → (extension : Text) → DatasetFile
  small_file file_id dataset_id filename stored_bytes uploaded_by backend bucket extension =
      record {
        dataset_id = dataset_id;
        file_name = filename;
        storage_backend = backend;
        storage_bucket = bucket;
        storage_key = spell (raw_key uuids dataset_id file_id (codes filename));
        file_format = spell extension;
        file_size_bytes = stored_bytes;
        uploaded_by = uploaded_by;
        storage_kind = none;
        processed_bucket = none;
        processed_key = none;
        processed_prefix = none;
      }

  abbrev pub queued_upload :
      (dataset_id : ℕ) → (filename : String) → (uploaded_by : Option ℕ) → Upload
  queued_upload dataset_id filename uploaded_by = record {
    dataset_id = some dataset_id;
    dataset_file_id = none;
    file_name = filename;
    status = UploadStatus.queued;
    error_message = none;
    uploaded_by = uploaded_by;
    celery_task_id = none;
    multipart_upload_id = none;
    storage_bucket = none;
    storage_key = none;
    total_size_bytes = none;
    total_parts = none;
    uploaded_bytes = 0;
  }

  unfoldable pub upload_dataset_file :
      (file_id upload_id dataset_id : ℕ)
      → (filename : String) → (total_bytes stored_bytes : ℕ) → (content_matches : Bool)
      → (uploaded_by max_upload_size_mb : Option ℕ) → (backend bucket : String) → Txn Db (Unit {0})
  upload_dataset_file file_id upload_id dataset_id filename total_bytes stored_bytes content_matches
        uploaded_by max_mb backend bucket =
      do
        or_raise (← gets (λ db. find dataset_id db.datasets)) (http 404)
        extension ← or_raise (validate_extension (codes filename)) (http 400)
        raise_if (not (size_is_valid total_bytes max_mb setting)) (http 400)
        raise_if (not content_matches) (http 400)
        raise_if_taken file_id (λ db. db.dataset_files)
        raise_if_taken upload_id (λ db. db.uploads)
        modify λ db. record db {
          dataset_files =
              insert file_id
                (small_file file_id dataset_id filename stored_bytes uploaded_by backend bucket
                  extension)
                db.dataset_files;
          uploads = insert upload_id (queued_upload dataset_id filename uploaded_by) db.uploads;
        }
        commit
