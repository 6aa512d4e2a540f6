-- ===== src/Uploads/Lifecycle.antt =====
-- How an upload moves from its first part to a file, and what a cancellation does.
use bodp_app.Prelude.{
  ℕ, ◌-◌, ◌*◌, ◌<◌, ◌≤◌, ◌≡◌, refl, Bool, true, false, ◌&&◌, Option, none, some, String, arith, ap,
  Bool-cases, Option-cases, inl, inr, ◌⊎◌,
}
use bodp_app.Table.{Table, find, update, find-update, find-insert}
use bodp_app.Session.{ok, err, http, run, exec, reply}
use bodp_app.Models.{Upload, UploadStatus, DatasetFile, is_initiated}
use bodp_app.Database.{Db}
use bodp_app.Uploads.Handlers.{
  part_size_bytes, parts_of, presign_part, mark_part_uploaded, progressed,
  complete_multipart_upload, queued_with, file_of, is_whole, cancel_upload, cancelled_with,
  cancelled_unlinked, begin_ingestion,
}

-- A file that is not empty fits into its parts, and not into one part fewer.
pub parts_of-fits :
    (size : ℕ)
    → 0 < size
    → (size ≤ parts_of size * part_size_bytes) × ((parts_of size - 1) * part_size_bytes < size)
unfolding parts_of
parts_of-fits size h = (omega arith, omega arith)

status_initiated : (s : UploadStatus) → is_initiated s ≡ true → s ≡ UploadStatus.initiated
status_initiated UploadStatus.initiated h = refl
status_initiated UploadStatus.queued h = cc
status_initiated UploadStatus.processing h = cc
status_initiated UploadStatus.complete h = cc
status_initiated UploadStatus.failed h = cc
status_initiated UploadStatus.cancelled h = cc

whole_total : (parts : ℕ) (n : Option ℕ) → is_whole parts n ≡ true → n ≡ some parts
whole_total parts none h = cc
whole_total parts (some n) h = ground arith

-- Completing an upload succeeds only if it is still open and storage has exactly the parts that
-- were planned; then there is a file under the key of the upload, and the upload is queued and
-- points to it.
pub complete_is_whole :
    (id parts size : ℕ) (backend format : String) (u : Upload) (db : Db)
    → find id db.uploads ≡ some u
    → reply (complete_multipart_upload id parts size backend format) db ≡ ok tt
    → (u.status ≡ UploadStatus.initiated)
      × (u.total_parts ≡ some parts)
      × (find id db.dataset_files ≡ none)
      × (find id (exec (complete_multipart_upload id parts size backend format) db).uploads
          ≡ some (queued_with id u))
      × ((f : DatasetFile) × (find id
              (exec (complete_multipart_upload id parts size backend format) db).dataset_files
            ≡ some f)
          × (some f.dataset_id ≡ u.dataset_id)
          × (f.file_size_bytes ≡ size))
unfolding complete_multipart_upload
complete_is_whole id parts size backend format u db h e =
    elim (Bool-cases (is_initiated u.status && is_whole parts u.total_parts)) [
      | inr no_go ↦ absurd (ground arith)
      | inl go ↦ elim (Option-cases u.dataset_id) [
        | inl a ↦ absurd (ground arith)
        | inr (dataset_id, a) ↦ elim (Option-cases u.storage_bucket) [
          | inl b ↦ absurd (ground arith)
          | inr (bucket, b) ↦ elim (Option-cases u.storage_key) [
            | inl c ↦ absurd (ground arith)
            | inr (key, c) ↦ elim (Option-cases (find id db.dataset_files)) [
              | inr (old, d) ↦ absurd (ground arith)
              | inl d ↦
                  let file = file_of dataset_id bucket key backend format size u in
                  (
                    status_initiated u.status (ground arith),
                    whole_total parts u.total_parts (ground arith),
                    d,
                    ground (arith, find-update id id (queued_with id) db.uploads),
                    (
                      file,
                      ground (arith, find-insert id id file db.dataset_files),
                      ground arith,
                      refl,
                    ),
                  )
            ]
          ]
        ]
      ]
    ]

-- What an upload may still be cancelled from.
abbrev pub is_cancellable : UploadStatus → Bool
is_cancellable UploadStatus.initiated = true
is_cancellable UploadStatus.queued = true
is_cancellable UploadStatus.processing = true
is_cancellable UploadStatus.complete = false
is_cancellable UploadStatus.failed = false
is_cancellable UploadStatus.cancelled = false

-- A write that cancels.
Cancels : (Upload → Upload) → Type 0
Cancels f = (u : Upload) → (f u).status ≡ UploadStatus.cancelled

cancelled_by :
    (id : ℕ) (u : Upload) (f : Upload → Upload) (t : Table Upload) (db : Db)
    → Cancels f
    → find id t ≡ some u
    → (exec (cancel_upload id) db).uploads ≡ update id f t
    → (v : Upload) × (find id (exec (cancel_upload id) db).uploads ≡ some v)
      × (v.status ≡ UploadStatus.cancelled)
unfolding Cancels
cancelled_by id u f t db c h e = (f u, ground (arith, find-update id id f t), c u)

queued-uploads :
    (id : ℕ) (u : Upload) (db : Db)
    → find id db.uploads ≡ some u
    → u.status ≡ UploadStatus.queued
    → (reply (cancel_upload id) db ≡ ok tt)
      × ((exec (cancel_upload id) db).uploads
          ≡ update id
              (cancelled_unlinked "Cancelled after upload completed, before processing started.")
              db.uploads)
unfolding cancel_upload
queued-uploads id u db h q = elim (Option-cases u.dataset_file_id) [
  | inl n ↦ (ground arith, ground arith)
  | inr (file, n) ↦ elim (Option-cases (find file db.dataset_files)) [
    | inl m ↦ (ground arith, ground arith)
    | inr (f, m) ↦ (ground arith, ground arith)
  ]
]

-- What cancelling comes to.
abbrev pub CancelOutcome : (id : ℕ) → Upload → Db → Type 0
CancelOutcome id u db =
    (is_cancellable u.status ≡ false) × (run (cancel_upload id) db ≡ (err (http 400), db))
    ⊎ (is_cancellable u.status ≡ true)
      × (reply (cancel_upload id) db ≡ ok tt)
      × ((v : Upload) × (find id (exec (cancel_upload id) db).uploads ≡ some v)
          × (v.status ≡ UploadStatus.cancelled))

cancel_from :
    (s : UploadStatus) (id : ℕ) (u : Upload) (db : Db)
    → find id db.uploads ≡ some u
    → u.status ≡ s
    → CancelOutcome id u db
unfolding cancel_upload Cancels
cancel_from UploadStatus.initiated id u db h e = inr (
  ground arith,
  ground arith,
  cancelled_by id u (cancelled_with "Cancelled before upload completed.") db.uploads db (λ u. refl)
      h (ground arith),
)
cancel_from UploadStatus.processing id u db h e = inr (
  ground arith,
  ground arith,
  cancelled_by id u (cancelled_with "Cancellation requested during processing.") db.uploads db
      (λ u. refl) h (ground arith),
)
cancel_from UploadStatus.queued id u db h e =
    let (answer, rows) = queued-uploads id u db h e in
    inr (
      ground arith,
      answer,
      cancelled_by id u
          (cancelled_unlinked "Cancelled after upload completed, before processing started.")
          db.uploads db (λ u. refl) h rows,
    )
cancel_from UploadStatus.complete id u db h e = inl (ground arith, ground arith)
cancel_from UploadStatus.failed id u db h e = inl (ground arith, ground arith)
cancel_from UploadStatus.cancelled id u db h e = inl (ground arith, ground arith)

-- Cancelling an upload that is open, queued or processing succeeds, and the upload is cancelled
-- afterwards; cancelling any other upload raises 400 and changes nothing.
pub cancel_outcome :
    (id : ℕ) (u : Upload) (db : Db) → find id db.uploads ≡ some u → CancelOutcome id u db
cancel_outcome id u db h = cancel_from u.status id u db h refl

-- No part is recorded for a cancelled upload, it is not completed or cancelled again, and an
-- ingestion that finds it cancelled does not begin; the database stays as it was.
pub cancelled_upload_rests :
    (id file_id part size parts : ℕ) (backend format : String) (task : Option String) (u : Upload)
    (db : Db)
    → find id db.uploads ≡ some u
    → u.status ≡ UploadStatus.cancelled
    → (run (presign_part id part) db ≡ (err (http 400), db))
      × (run (mark_part_uploaded id size) db ≡ (err (http 400), db))
      × (run (complete_multipart_upload id parts size backend format) db ≡ (err (http 400), db))
      × (run (cancel_upload id) db ≡ (err (http 400), db))
      × (run (begin_ingestion id file_id task) db ≡ (ok false, db))
unfolding presign_part mark_part_uploaded complete_multipart_upload cancel_upload begin_ingestion
cancelled_upload_rests id file_id part size parts backend format task u db h c = (
  ground arith,
  ground arith,
  ground arith,
  ground arith,
  elim (Option-cases (find file_id db.dataset_files)) [
    | inl gone ↦ ground arith
    | inr (f, there) ↦ ground arith
  ],
)

-- Recording a part never lowers the progress and never moves it past the size of the file, where the
-- size is given and the progress was not past it before.
pub progress_is_bounded :
    (id size total : ℕ) (u v : Upload) (db : Db)
    → find id db.uploads ≡ some u
    → u.total_size_bytes ≡ some total
    → 0 < total
    → u.uploaded_bytes ≤ total
    → find id (exec (mark_part_uploaded id size) db).uploads ≡ some v
    → (u.uploaded_bytes ≤ v.uploaded_bytes) × (v.uploaded_bytes ≤ total)
unfolding mark_part_uploaded
progress_is_bounded id size total u v db h t pos le after =
    elim (Bool-cases (is_initiated u.status)) [
      | inr shut ↦
          (let same : u ≡ v = ground arith in
            let n = ap (λ x. x.uploaded_bytes) same in (omega arith, omega arith))
      | inl started ↦
          (let moved : progressed size u ≡ v =
              ground (arith, find-update id id (progressed size) db.uploads) in
            let n = ap (λ x. x.uploaded_bytes) moved in (ground arith, ground arith))
    ]
