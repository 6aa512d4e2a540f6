-- ===== src/Tests/IngestionTests.antt =====
-- Ingestions of the file of an upload: one that fails, and one that is cancelled while it runs.
use bodp_app.Prelude.{refl, true, some, none, [], ◌∷◌, ◌++◌, All}
use bodp_app.Table.{find, update}
use bodp_app.Session.{exec}
use bodp_app.Models.{UploadStatus}
use bodp_app.Database.{Db}
use bodp_app.Uploads.{
  Stage, Failure, process_dataset_file, run_stages, cancel_upload, set_processing_upload,
  cancelled_with,
}
use bodp_app.Uploads.Terminal.{HasEnded, writes_but, process_dataset_file-HasEnded}
use bodp_app.Uploads.Cancellation.{LeavesNothing, process_dataset_file-LeavesNothing}
use bodp_app.Tests.Fixtures.{file}
use bodp_app.Tests.UploadTests.{upload, upload_db}

abbrev quiet : Stage
quiet = record { others = λ db. db; failure = none; checked = true }

abbrev rejected : Stage
rejected = record { others = λ db. db; failure = some Failure.parser_error; checked = true }

abbrev interrupted : Stage
interrupted = record { others = λ db. exec (cancel_upload 60) db; failure = none; checked = true }

abbrev queued_db : Db
queued_db = upload_db UploadStatus.queued

process_dataset_file-HasEnded_example :
    HasEnded 60
      (process_dataset_file 60 9 90 none (quiet ∷ rejected ∷ []) (writes_but true) queued_db)
unfolding find All
process_dataset_file-HasEnded_example =
    process_dataset_file-HasEnded 60 9 90 none (quiet ∷ rejected ∷ []) true file
      (upload UploadStatus.queued) queued_db refl refl ((λ db h. h), ((λ db h. h), tt))

process_dataset_file-LeavesNothing_example : LeavesNothing 60 9 (
    process_dataset_file 60 9 90 none
      ((quiet ∷ []) ++ (interrupted ∷ rejected ∷ []))
      (writes_but true)
      queued_db)
unfolding find update run_stages cancel_upload
process_dataset_file-LeavesNothing_example =
    process_dataset_file-LeavesNothing 60 9 90 none (quiet ∷ []) (rejected ∷ []) interrupted file
      (upload UploadStatus.queued)
      (cancelled_with "Cancellation requested during processing."
        (set_processing_upload none (upload UploadStatus.queued)))
      queued_db
      (record queued_db {
        uploads = (60, set_processing_upload none (upload UploadStatus.queued)) ∷ [];
      })
      refl refl refl refl refl refl refl refl (refl, tt)
