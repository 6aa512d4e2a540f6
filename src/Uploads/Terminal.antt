-- ===== src/Uploads/Terminal.antt =====
-- How an ingestion leaves its upload.
use bodp_app.Prelude.{
  ℕ, ◌≡◌, refl, sym, subst, Bool, true, false, Option, none, some, List, [], ◌∷◌, is_some,
  if◌then◌else◌, ◌&&◌, arith, Bool-cases, inl, inr, All, ◌⊎◌, String,
}
use bodp_app.Table.{find, update, find-update, find-update_where}
use bodp_app.Session.{ok, run}
use bodp_app.Models.{Upload, UploadStatus, DatasetFile, is_cancelled}
use bodp_app.Database.{Db}
use bodp_app.Uploads.Handlers.{
  begin_ingestion, finish_ingestion, set_complete, set_processing_upload,
}
use bodp_app.Uploads.Ingestion.{
  Failure, Stage, checkpoint, after_stage, run_stages, with_status, set_upload_terminal_state,
  names_file, unlinked, cleanup_cancelled_ingestion, settle, Writes, ingest, process_found,
  process_dataset_file,
}

abbrev pub is_terminal : UploadStatus → Bool
is_terminal UploadStatus.initiated = false
is_terminal UploadStatus.queued = false
is_terminal UploadStatus.processing = false
is_terminal UploadStatus.complete = true
is_terminal UploadStatus.failed = true
is_terminal UploadStatus.cancelled = true

-- The upload is there, and has ended.
abbrev pub HasEnded : ℕ → Db → Type 0
HasEnded id db = (u : Upload) × (find id db.uploads ≡ some u) × (is_terminal u.status ≡ true)

-- The upload is there.
abbrev pub IsThere : ℕ → Db → Type 0
IsThere id db = (u : Upload) × (find id db.uploads ≡ some u)

-- What other sessions commit during a stage does not delete the upload.
abbrev pub KeepsUpload : ℕ → Stage → Type 0
KeepsUpload id s = (db : Db) → IsThere id db → IsThere id (s.others db)

after_stage-IsThere :
    (id : ℕ) (work check : Option Failure) (go_on : Option Failure × Db) (db : Db)
    → IsThere id db
    → IsThere id go_on.1
    → IsThere id (after_stage work check go_on db).1
after_stage-IsThere id (some e) check go_on db h k = h
after_stage-IsThere id none (some e) go_on db h k = h
after_stage-IsThere id none none go_on db h k = k

run_stages-IsThere :
    (tracked : Bool) (id : ℕ) (stages : List Stage) (db : Db)
    → All (KeepsUpload id) stages
    → IsThere id db
    → IsThere id (run_stages tracked id stages db).1
unfolding run_stages All
run_stages-IsThere tracked id [] db h k = k
run_stages-IsThere tracked id (s ∷ stages) db (keeps, rest) k =
    let now = s.others db in
    after_stage-IsThere id s.failure (checkpoint (tracked && s.checked) (find id now.uploads)) _ now
      (keeps db k) (run_stages-IsThere tracked id stages now rest (keeps db k))

pub cleanup-IsThere :
    (works : Bool) (id file : ℕ) (db : Db)
    → IsThere id db
    → IsThere id (cleanup_cancelled_ingestion works file db)
unfolding cleanup_cancelled_ingestion
cleanup-IsThere false id file db h = h
cleanup-IsThere true id file db (u, h) =
    let p : Upload → Bool = λ v. names_file file v.dataset_file_id in
    (if p u then unlinked u else u, ground (arith, find-update_where id p unlinked db.uploads))

state-HasEnded :
    (id : ℕ) (status : UploadStatus) (db : Db)
    → is_terminal status ≡ true
    → IsThere id db
    → HasEnded id (set_upload_terminal_state true id status db)
unfolding set_upload_terminal_state
state-HasEnded id status db e (u, h) =
    (with_status status u, ground (arith, find-update id id (with_status status) db.uploads), e)

-- The commits and the write of the final status reach the database; the clean-up may fail.
abbrev pub writes_but : (cleanup : Bool) → Writes
writes_but works = record { first = true; last = true; cleanup = works; terminal = true }

module _ (id file dataset issue : ℕ) (works : Bool) where
  settle-HasEnded :
      (end : Option Failure) (db : Db)
      → IsThere id db
      → HasEnded id (settle id file dataset issue (writes_but works) true end db)
  unfolding settle finish_ingestion
  settle-HasEnded none db (u, h) =
      (set_complete file u, ground (arith, find-update id id (set_complete file) db.uploads), refl)
  settle-HasEnded (some Failure.ingestion_cancelled) db h =
      state-HasEnded id UploadStatus.cancelled _ refl (cleanup-IsThere works id file db h)
  settle-HasEnded (some Failure.zarr_upload_failed) db h =
      state-HasEnded id UploadStatus.failed _ refl (cleanup-IsThere works id file db h)
  settle-HasEnded (some Failure.soft_time_limit_exceeded) db h =
      state-HasEnded id UploadStatus.failed _ refl (cleanup-IsThere works id file db h)
  settle-HasEnded (some Failure.integrity_error) db h =
      state-HasEnded id UploadStatus.failed _ refl h
  settle-HasEnded (some Failure.parser_error) db h = state-HasEnded id UploadStatus.failed db refl h
  settle-HasEnded (some Failure.unexpected) db h = state-HasEnded id UploadStatus.failed db refl h

-- What the first commit comes to.
pub begun_cases :
    (id file : ℕ) (task : Option String) (f : DatasetFile) (u : Upload) (db : Db)
    → find file db.dataset_files ≡ some f
    → find id db.uploads ≡ some u
    → (is_cancelled u.status ≡ true) × (run (begin_ingestion id file task) db ≡ (ok false, db))
      ⊎ (is_cancelled u.status ≡ false)
        × (run (begin_ingestion id file task) db
            ≡ (ok true, record db { uploads = update id (set_processing_upload task) db.uploads }))
unfolding begin_ingestion
begun_cases id file task f u db e k = elim (Bool-cases (is_cancelled u.status)) [
  | inl c ↦ inl (c, ground arith)
  | inr c ↦ inr (c, ground arith)
]

cancelled_ends : (s : UploadStatus) → is_cancelled s ≡ true → is_terminal s ≡ true
cancelled_ends UploadStatus.cancelled h = refl
cancelled_ends UploadStatus.initiated h = cc
cancelled_ends UploadStatus.queued h = cc
cancelled_ends UploadStatus.processing h = cc
cancelled_ends UploadStatus.complete h = refl
cancelled_ends UploadStatus.failed h = refl

-- However the work on a file ends, whether or not the clean-up works, and whatever other sessions
-- commit meanwhile short of deleting the upload: where the row of the file is there, the exceptions
-- of the work are all that is raised, and the commits and the write of the final status reach the
-- database, the upload is complete, failed or cancelled when the task ends.
pub process_dataset_file-HasEnded :
    (id file issue : ℕ) (task : Option String) (stages : List Stage) (works : Bool)
    (f : DatasetFile) (u : Upload) (db : Db)
    → find file db.dataset_files ≡ some f
    → find id db.uploads ≡ some u
    → All (KeepsUpload id) stages
    → HasEnded id (process_dataset_file id file issue task stages (writes_but works) db)
unfolding process_dataset_file process_found ingest
process_dataset_file-HasEnded id file issue task stages works f u db e k keep =
    let w = writes_but works in
    subst (λ (o : Option DatasetFile). HasEnded id (process_found id file issue task stages w o db))
      (sym e)
      (subst
        (λ (o : Option Upload).
          HasEnded id
            (ingest id file issue stages w f (run (begin_ingestion id file task) db) (is_some o)))
        (sym k)
        (elim (begun_cases id file task f u db e k) [
          | inl (c, ran) ↦
              subst (λ r. HasEnded id (ingest id file issue stages w f r true)) (sym ran)
                (u, k, cancelled_ends u.status c)
          | inr (c, ran) ↦
              let begun = record db {
                uploads = update id (set_processing_upload task) db.uploads;
              } in
              subst (λ r. HasEnded id (ingest id file issue stages w f r true)) (sym ran)
                (settle-HasEnded id file f.dataset_id issue works
                  (run_stages true id stages begun).0 (run_stages true id stages begun).1
                  (run_stages-IsThere true id stages begun keep (
                    set_processing_upload task u,
                    ground (arith, find-update id id (set_processing_upload task) db.uploads),
                  )))
        ]))
