-- ===== src/Tests/UploadTests.antt =====
-- An upload of two parts, open, running and cancelled.
use bodp_app.Prelude.{true, is_some, ◌-◌, ◌*◌, ◌<◌, ◌≤◌, ◌≡◌, refl, some, none, [], ◌∷◌, arith}
use bodp_app.Table.{find}
use bodp_app.Session.{ok, exec, reply}
use bodp_app.Models.{Upload, UploadStatus, DatasetFile}
use bodp_app.Database.{Db}
use bodp_app.Uploads.{
  part_size_bytes, parts_of, presign_part, validate_extension, suffix, split_at, last_component,
  lower_text, size_is_valid, initiate_multipart_upload, started_upload, complete_multipart_upload,
  queued_with,
}
use bodp_app.Uploads.Lifecycle.{complete_is_whole}
use bodp_app.Scope.{codes}
use bodp_app.Storage.{after_last, text_eq}
use bodp_app.Tests.Identifiers.{uuids}
use bodp_app.Uploads.Beginning.{initiate_multipart_upload-plan}
use bodp_app.Tests.Fixtures.{db}

abbrev pub upload : UploadStatus → Upload
upload status = record {
  dataset_id = some 5;
  dataset_file_id = none;
  file_name = "waves.nc";
  status = status;
  error_message = none;
  uploaded_by = some 2;
  celery_task_id = none;
  multipart_upload_id = some "m1";
  storage_bucket = some "ocean";
  storage_key = some "raw/5/60_waves.nc";
  total_size_bytes = some 100000000;
  total_parts = some 2;
  uploaded_bytes = 60000000;
}

abbrev pub upload_db : UploadStatus → Db
upload_db status = record db { uploads = (60, upload status) ∷ [] }

parts_of_small : parts_of 1 ≡ 1
unfolding parts_of
parts_of_small = refl

parts_of_two : parts_of 100000000 ≡ 2
unfolding parts_of
parts_of_two = refl

complete_is_whole_example :
    (UploadStatus.initiated ≡ UploadStatus.initiated)
    × ((upload UploadStatus.initiated).total_parts ≡ some 2)
    × (find 60 db.dataset_files ≡ none)
    × (find 60
          (exec
            (complete_multipart_upload 60 2 99000000 "vps_minio" "nc")
            (upload_db UploadStatus.initiated)).uploads
        ≡ some (queued_with 60 (upload UploadStatus.initiated)))
    × ((f : DatasetFile) × (find 60
            (exec
              (complete_multipart_upload 60 2 99000000 "vps_minio" "nc")
              (upload_db UploadStatus.initiated)).dataset_files
          ≡ some f)
        × (some f.dataset_id ≡ (upload UploadStatus.initiated).dataset_id)
        × (f.file_size_bytes ≡ 99000000))
unfolding complete_multipart_upload find
complete_is_whole_example =
    complete_is_whole 60 2 99000000 "vps_minio" "nc" (upload UploadStatus.initiated)
      (upload_db UploadStatus.initiated) refl refl

upper_case_name : validate_extension (codes "a/b.tar.NC") ≡ some (codes "nc")
unfolding validate_extension suffix split_at last_component after_last lower_text text_eq
upper_case_name = refl

hidden_name : validate_extension (codes "dir/.csv/.") ≡ none
unfolding validate_extension suffix split_at last_component after_last lower_text text_eq
hidden_name = refl

initiate_multipart_upload-plan_example :
    (is_some (find 5 db.datasets) ≡ true)
    × (is_some (validate_extension (codes "tides.nc")) ≡ true)
    × (2 ≤ 10000)
    × (100000000 ≤ 2 * part_size_bytes)
    × ((2 - 1) * part_size_bytes < 100000000)
    × (reply (presign_part 61 2) (
          exec
            (initiate_multipart_upload uuids
              (λ t. "key")
              5000
              61
              5
              "tides.nc"
              100000000
              none
              none
              "m"
              "ocean")
            db)
        ≡ ok (started_upload 5 "tides.nc" 100000000 none "m" "ocean" "key"))
unfolding initiate_multipart_upload validate_extension suffix split_at last_component after_last
    lower_text text_eq size_is_valid parts_of find
initiate_multipart_upload-plan_example =
    initiate_multipart_upload-plan uuids (λ t. "key") 5000 61 5 100000000 2 2 "tides.nc" "m" "ocean"
      none none db (omega arith) refl (omega arith) (omega arith)
